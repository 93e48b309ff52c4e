-- ===== src/Linker/Paths/Join.antt =====
-- Joining a directory and a name, and taking them apart.
use aic_lib.Base.{
  ℕ, zero, suc, ◌+◌, ◌-◌, ◌≡◌, ◌<◌, refl, arith, true, false, ◌==◌, leb, ltb, if◌then◌else◌, [],
  ◌∷◌, ◌++◌, some, length, get_or, take, ◌∙◌, ap, length-append,
}
use aic_lib.Linker.Strings.{Str}
use aic_lib.Linker.Paths.{
  max_path, path_has_slash, path_dir_loop, path_dir, build_join, base_name_loop, base_name,
}

abbrev slash : ℕ
slash = b'/'

pub base_name_loop-plain : (q p : Str) → path_has_slash p ≡ false → base_name_loop q p ≡ q
unfolding base_name_loop path_has_slash
base_name_loop-plain q [] h = refl
base_name_loop-plain q (c ∷ p) h = ground (arith, base_name_loop-plain q p)

pub base_name_loop-slash :
    (q dir name : Str)
    → path_has_slash name ≡ false
    → base_name_loop q (dir ++ (slash ∷ name)) ≡ name
unfolding base_name_loop
base_name_loop-slash q [] name h = base_name_loop-plain name name h
base_name_loop-slash q (c ∷ dir) name h =
    base_name_loop-slash (if c == slash then dir ++ (slash ∷ name) else q) dir name h

get_or-append : (dir rest : Str) (c : ℕ) → get_or (dir ++ (c ∷ rest)) (length dir) 0 ≡ c
get_or-append [] rest c = refl
get_or-append (x ∷ dir) rest c = get_or-append dir rest c

take-append : (dir rest : Str) → take (length dir) (dir ++ rest) ≡ dir
take-append [] rest = refl
take-append (x ∷ dir) rest = ap (λ xs. x ∷ xs) (take-append dir rest)

get_or-plain : (p : Str) (i : ℕ) → path_has_slash p ≡ false → (get_or p i 0 == slash) ≡ false
unfolding path_has_slash
get_or-plain [] i h = refl
get_or-plain (c ∷ p) zero h = ground arith
get_or-plain (c ∷ p) (suc i) h = get_or-plain p i (ground arith)

get_or-past :
    (dir name : Str) (c i n : ℕ)
    → n ≡ length dir + suc i
    → get_or (dir ++ (c ∷ name)) n 0 ≡ get_or name i 0
get_or-past [] name c i n e = let s : n ≡ suc i = omega (arith, e) in rw s refl
get_or-past (x ∷ dir) name c i zero e = absurd (omega (arith, e))
get_or-past (x ∷ dir) name c i (suc n) e = get_or-past dir name c i n (omega (arith, e))

-- The loop runs down the name, which has no slash.
path_dir_loop-name :
    (i n : ℕ) (dir name : Str)
    → path_has_slash name ≡ false
    → n ≡ length dir + suc i
    → path_dir_loop n (dir ++ (slash ∷ name))
      ≡ path_dir_loop (suc (length dir)) (dir ++ (slash ∷ name))
unfolding path_dir_loop
path_dir_loop-name zero n dir name h e =
    let s : n ≡ suc (length dir) = omega (arith, e) in rw s refl
path_dir_loop-name (suc i) zero dir name h e = absurd (omega (arith, e))
path_dir_loop-name (suc i) (suc n) dir name h e =
    let plain : (get_or (dir ++ (slash ∷ name)) n 0 == slash) ≡ false =
      rw (get_or-past dir name slash i n (omega (arith, e))) (get_or-plain name i h) in
    rw plain (path_dir_loop-name i n dir name h (omega (arith, e)))

path_dir_loop-slash :
    (dir name : Str)
    → 0 < length dir
    → length dir + 1 < max_path
    → path_dir_loop (suc (length dir)) (dir ++ (slash ∷ name)) ≡ some dir
unfolding path_dir_loop
path_dir_loop-slash dir name some_dir fits =
    let some' : (length dir == 0) ≡ false = ground arith in
    let short : leb max_path (suc (length dir)) ≡ false = ground arith in
    rw (get_or-append dir name slash, some', short) (ap some (take-append dir (slash ∷ name)))

path_dir-join :
    (dir name : Str)
    → 0 < length dir
    → path_has_slash name ≡ false
    → length dir + length name + 2 < max_path
    → path_dir (dir ++ (slash ∷ name)) ≡ some dir
unfolding path_dir
path_dir-join dir name some_dir plain fits =
    let l : length (dir ++ (slash ∷ name)) ≡ length dir + suc (length name) =
      length-append dir (slash ∷ name) in
    let some' : (length (dir ++ (slash ∷ name)) == 0) ≡ false = ground arith in
    let short : leb max_path (length (dir ++ (slash ∷ name))) ≡ false = ground arith in
    rw (some', short)
      (path_dir_loop-name (length name) (length (dir ++ (slash ∷ name))) dir name plain l
        ∙ path_dir_loop-slash dir name some_dir (omega arith))

-- For a name without a slash and a directory that is not empty and does not end in a slash, where
-- both fit, `build_join` gives a file name of which `path_dir` is the directory and `base_name`
-- the name.
pub build_join-split :
    (dir name : Str)
    → 0 < length dir
    → (get_or dir (length dir - 1) 0 == slash) ≡ false
    → path_has_slash name ≡ false
    → length dir + length name + 2 < max_path
    → (path : Str) × (build_join dir name ≡ some path)
      × (path_dir path ≡ some dir)
      × (base_name path ≡ name)
unfolding build_join base_name
build_join-split dir name some_dir no_slash plain fits =
    let short : leb max_path (length dir + 1 + length name + 1) ≡ false = ground arith in
    let some' : ltb 0 (length dir) ≡ true = ground arith in
    (
      dir ++ (slash ∷ name),
      rw (short, some', no_slash) refl,
      path_dir-join dir name some_dir plain fits,
      base_name_loop-slash (dir ++ (slash ∷ name)) dir name plain,
    )
