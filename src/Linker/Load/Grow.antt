-- ===== src/Linker/Load/Grow.antt =====
-- The table of objects when one is added: what was found before is found at the same index.
use aic_lib.Base.{
  ℕ, zero, suc, ◌+◌, ◌≡◌, ◌<◌, refl, ap, ◌∙◌, arith, Bool, true, false, not, ◌&&◌, ◌||◌, ◌==◌, List,
  [], ◌∷◌, ◌++◌, none, some, length, get_elem?, append_nil, append_assoc, All, Bool-cases, inl, inr,
}
use aic_lib.Linker.{Object}
use aic_lib.Linker.Strings.{Str, same_string, same_string_self}
use aic_lib.Linker.Paths.{base_name}
use aic_lib.Linker.Init.{has_name, find_loaded, find_loaded_soname_or_basename}
use aic_lib.Linker.Load.{free_index, put_free, Table, is_scanned, no_names}

abbrev pub IsUsed : Object → Type 0
IsUsed o = o.used ≡ true

or_true : (a b : Bool) → b ≡ true → (a || b) ≡ true
or_true true b h = refl
or_true false b h = h

or_right : (a b : Bool) → a ≡ false → (a || b) ≡ true → b ≡ true
or_right true b e h = cc
or_right false b e h = h

pub free_index-IsUsed : (os : List Object) → All IsUsed os → free_index os ≡ length os
unfolding free_index
free_index-IsUsed [] h = refl
free_index-IsUsed (o ∷ os) h = rw h.0 (ap suc (free_index-IsUsed os h.1))

pub put_free-IsUsed :
    (new : Object) (os : List Object) → All IsUsed os → put_free new os ≡ os ++ (new ∷ [])
unfolding put_free
put_free-IsUsed new [] h = refl
put_free-IsUsed new (o ∷ os) h = simp h.0 (ap (λ l. o ∷ l) (put_free-IsUsed new os h.1))

find_loaded-append :
    (i : ℕ) (name : Str) (os more : List Object) (k : ℕ)
    → find_loaded i name os ≡ some k
    → find_loaded i name (os ++ more) ≡ some k
unfolding find_loaded
find_loaded-append i name [] more k h = cc
find_loaded-append i name (o ∷ os) more k h = elim (Bool-cases (has_name name o)) [
  | inl e ↦ ground arith
  | inr e ↦ ground (arith, find_loaded-append (suc i) name os more k)
]

find_loaded-new :
    (i n : ℕ) (name : Str) (os : List Object) (o : Object)
    → n ≡ i + length os
    → has_name name o ≡ true
    → find_loaded i name os ≡ none
    → find_loaded i name (os ++ (o ∷ [])) ≡ some n
unfolding find_loaded
find_loaded-new i n name [] o e here h = let e' : n ≡ i = omega (arith, e) in rw (here, e') refl
find_loaded-new i n name (p ∷ os) o e here h = elim (Bool-cases (has_name name p)) [
  | inl there ↦ ground arith
  | inr other ↦
      rw other (find_loaded-new (suc i) n name os o (omega (arith, e)) here (ground arith))
]

find_loaded-lt :
    (i : ℕ) (name : Str) (os : List Object) (k : ℕ)
    → find_loaded i name os ≡ some k
    → k < i + length os
unfolding find_loaded
find_loaded-lt i name [] k h = cc
find_loaded-lt i name (o ∷ os) k h = elim (Bool-cases (has_name name o)) [
  | inl e ↦ ground arith
  | inr e ↦ ground (arith, find_loaded-lt (suc i) name os k)
]

pub found-append :
    (name : Str) (os more : List Object) (k : ℕ)
    → find_loaded_soname_or_basename os name ≡ some k
    → find_loaded_soname_or_basename (os ++ more) name ≡ some k
unfolding find_loaded_soname_or_basename
found-append name os more k h = find_loaded-append 0 name os more k h

pub found-lt :
    (name : Str) (os : List Object) (k : ℕ)
    → find_loaded_soname_or_basename os name ≡ some k
    → k < length os
unfolding find_loaded_soname_or_basename
found-lt name os k h = omega (arith, find_loaded-lt 0 name os k h)

has_name-base_name :
    (name : Str) (o : Object) → o.used ≡ true → base_name o.path ≡ name → has_name name o ≡ true
unfolding has_name
has_name-base_name name o used e =
    let same = same_string_self name in
    rw (used, e, same) (or_true (not (length o.soname == 0) && same_string o.soname name) true refl)

-- An object whose file has the name is found by it.
pub found-new :
    (name : Str) (os : List Object) (o : Object)
    → o.used ≡ true
    → base_name o.path ≡ name
    → find_loaded_soname_or_basename os name ≡ none
    → find_loaded_soname_or_basename (os ++ (o ∷ [])) name ≡ some (length os)
unfolding find_loaded_soname_or_basename
found-new name os o used e h =
    find_loaded-new 0 (length os) name os o (omega arith) (has_name-base_name name o used e) h

pub get_elem?-append {ℓ} :
    {A : Type ℓ} (xs ys : List A) (i : ℕ) → i < length xs → get_elem? (xs ++ ys) i ≡ get_elem? xs i
get_elem?-append [] ys i h = elim h [ ]
get_elem?-append (x ∷ xs) ys zero h = refl
get_elem?-append (x ∷ xs) ys (suc i) h = get_elem?-append xs ys i (omega arith)

-- Objects are only added, behind the others, and no mark is taken back.
abbrev pub Extends : Table → Table → Type 0
Extends s t =
    ((more : List Object) × (t.objects ≡ s.objects ++ more))
    × ((j : ℕ) → s.needed_scanned j ≡ true → t.needed_scanned j ≡ true)

pub Extends-self : (s : Table) → Extends s s
Extends-self s = (([], append_nil s.objects), (λ j h. h))

pub Extends-on : (s t u : Table) → Extends s t → Extends t u → Extends s u
Extends-on s t u ((xs, e), keep) ((ys, f), keep') = (
  (xs ++ ys, f ∙ (ap (λ l. l ++ ys) e ∙ append_assoc s.objects xs ys)),
  (λ j h. keep' j (keep j h)),
)

pub is_scanned-Extends :
    (s t : Table) (i : ℕ)
    → Extends s t
    → i < length s.objects
    → is_scanned s i ≡ true
    → is_scanned t i ≡ true
unfolding is_scanned
is_scanned-Extends s t i ((more, e), keep) lt h =
    let same : get_elem? t.objects i ≡ get_elem? s.objects i =
      ap (λ l. get_elem? l i) e ∙ get_elem?-append s.objects more i lt in
    elim (Bool-cases (s.needed_scanned i)) [
      | inl m ↦ let m' = keep i m in rw m' refl
      | inr m ↦ rw same (
          let p : no_names (get_elem? s.objects i) ≡ true = or_right _ _ m h in
          or_true (t.needed_scanned i) _ p)
    ]
