-- ===== src/Linker/Paths/Bounds.antt =====
-- The file name of a library fits in the buffer for it, and ends in the name of the library.
use aic_lib.Base.{
  ℕ, ◌+◌, ◌-◌, ◌≡◌, ◌<◌, arith, true, false, not, ◌&&◌, ◌==◌, leb, ltb, if◌then◌else◌, [], ◌∷◌,
  ◌++◌, Option, some, length, length-append, get_or, Bool-cases, inl, inr,
}
use aic_lib.Linker.{Object, Globals}
use aic_lib.Linker.Strings.{Str}
use aic_lib.Linker.Paths.{
  max_path, Opened, find_library_file, path_has_slash, build_join, base_name, base_name_loop,
}
use aic_lib.Linker.Paths.Join.{base_name_loop-plain, base_name_loop-slash}
use aic_lib.Linker.Paths.Every.{Holds, HoldsOpened, Holds-if, find_library_file-HoldsOpened}

-- A file name fits in a buffer of `max_path` bytes with its terminator.
abbrev pub FitsOpened : Option Opened → Type 0
FitsOpened = HoldsOpened (λ path. length path < max_path)

build_join-fits : (dir name : Str) → Holds (λ path. length path < max_path) (build_join dir name)
unfolding build_join max_path
build_join-fits dir name = elim (Bool-cases (leb max_path (length dir + 1 + length name + 1))) [
  | inl long ↦ rw long tt
  | inr short ↦ rw short (
      Holds-if (λ path. length path < max_path) _ (some (dir ++ (b'/' ∷ name))) (some (dir ++ name))
        (ground (arith, length-append dir (b'/' ∷ name), short))
        (ground (arith, length-append dir name, short)))
]

base_name_loop-ends :
    (q : Str) (c : ℕ) (dir name : Str)
    → (get_or (c ∷ dir) (length dir) 0 == b'/') ≡ true
    → path_has_slash name ≡ false
    → base_name_loop q (c ∷ (dir ++ name)) ≡ name
unfolding base_name_loop
base_name_loop-ends q c [] name h plain =
    let e : (c == b'/') ≡ true = h in rw (base_name_loop, e) (base_name_loop-plain name name plain)
base_name_loop-ends q c (d ∷ dir) name h plain =
    base_name_loop-ends (if c == b'/' then d ∷ (dir ++ name) else q) d dir name h plain

-- A directory that is empty or ends in a slash.
base_name-ends :
    (dir name : Str)
    → (ltb 0 (length dir) && not (get_or dir (length dir - 1) 0 == b'/')) ≡ false
    → path_has_slash name ≡ false
    → base_name (dir ++ name) ≡ name
unfolding base_name
base_name-ends [] name h plain = base_name_loop-plain name name plain
base_name-ends (c ∷ dir) name h plain =
    base_name_loop-ends (c ∷ (dir ++ name)) c dir name (ground (arith, h)) plain

build_join-named :
    (dir name : Str)
    → path_has_slash name ≡ false
    → Holds (λ path. base_name path ≡ name) (build_join dir name)
unfolding build_join base_name
build_join-named dir name plain =
    elim (Bool-cases (leb max_path (length dir + 1 + length name + 1))) [
      | inl long ↦ rw long tt
      | inr short ↦
          elim (Bool-cases (ltb 0 (length dir) && not (get_or dir (length dir - 1) 0 == b'/'))) [
            | inl slash ↦
                rw (short, slash) (base_name_loop-slash (dir ++ (b'/' ∷ name)) dir name plain)
            | inr none_ ↦ rw (short, none_) (base_name-ends dir name none_ plain)
          ]
    ]

-- For a name without a slash, a file name that `find_library_file` returns fits with its
-- terminator in a buffer of `max_path` bytes.
pub find_library_file-FitsOpened :
    (open_file : Str → Option ℕ) (g : Globals) (from : Option Object) (name before : Str)
    → path_has_slash name ≡ false
    → FitsOpened (find_library_file open_file g from name before)
find_library_file-FitsOpened open_file g from name before plain =
    find_library_file-HoldsOpened (λ path. length path < max_path) name
      (λ dir. build_join-fits dir name) open_file g from before plain

-- For a name without a slash, the last part of the file name that is found is the name.
pub find_library_file-base_name :
    (open_file : Str → Option ℕ) (g : Globals) (from : Option Object) (name before : Str)
    → path_has_slash name ≡ false
    → HoldsOpened (λ path. base_name path ≡ name) (find_library_file open_file g from name before)
find_library_file-base_name open_file g from name before plain =
    find_library_file-HoldsOpened (λ path. base_name path ≡ name) name
      (λ dir. build_join-named dir name plain) open_file g from before plain
