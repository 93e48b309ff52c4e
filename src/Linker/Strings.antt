-- ===== src/Linker/Strings.antt =====
-- ld/dynlink.c, the helpers on strings, and the file names.
use aic_lib.Base.{
  ℕ, zero, suc, ◌≡◌, refl, arith, Bool, true, false, ◌==◌, ltb, if◌then◌else◌, List, [], ◌∷◌, drop,
  Bool-cases, inl, inr,
}
use aic_lib.Base.Int.{ℤ, pos, negsuc}

-- A string of the source as its bytes.
abbrev pub Str : Type 0
Str = List ℕ

-- `strtab + offset`, read up to the terminator.
unfoldable pub until_zero : List ℕ → Str
until_zero [] = []
until_zero (c ∷ bytes) = if c == 0 then [] else c ∷ until_zero bytes

unfoldable pub string_at : List ℕ → ℕ → Str
string_at strtab offset = until_zero (drop offset strtab)

unfoldable pub scmp : Str → Str → ℤ
scmp [] [] = pos 0
scmp [] (y ∷ b) = negsuc 0
scmp (x ∷ a) [] = pos 1
scmp (x ∷ a) (y ∷ b) = if x == y then scmp a b else if ltb x y then negsuc 0 else pos 1

unfoldable pub sncmp : Str → Str → ℕ → ℤ
sncmp a b zero = pos 0
sncmp [] [] (suc n) = pos 0
sncmp [] (y ∷ b) (suc n) = negsuc 0
sncmp (x ∷ a) [] (suc n) = pos 1
sncmp (x ∷ a) (y ∷ b) (suc n) = if x == y then sncmp a b n else if ltb x y then negsuc 0 else pos 1

-- `… == 0`
unfoldable pub is_zero : ℤ → Bool
is_zero (pos zero) = true
is_zero (pos (suc n)) = false
is_zero (negsuc n) = false

unfoldable pub same_string : Str → Str → Bool
same_string a b = is_zero (scmp a b)

pub same_string_self : (a : Str) → same_string a a ≡ true
unfolding same_string scmp is_zero
same_string_self [] = refl
same_string_self (x ∷ a) = ground (arith, same_string_self a)

pub same_string-eq : (a b : Str) → same_string a b ≡ true → a ≡ b
unfolding same_string scmp is_zero
same_string-eq [] [] h = refl
same_string-eq [] (y ∷ b) h = ground arith
same_string-eq (x ∷ a) [] h = ground arith
same_string-eq (x ∷ a) (y ∷ b) h = elim (Bool-cases (x == y)) [
  | inl e ↦ ground (arith, same_string-eq a b (ground arith))
  | inr ne ↦ elim (Bool-cases (ltb x y)) [ inl l ↦ ground arith | inr g ↦ ground arith ]
]
