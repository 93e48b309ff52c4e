-- ===== src/Tests/Store.antt =====
-- Concrete memories, and tests by evaluation for the hypotheses about them.
use aic_lib.Base.{
  ℕ, zero, suc, ◌-◌, ◌≡◌, arith, Bool, true, false, ◌&&◌, ◌==◌, ltb, if◌then◌else◌, List, [], ◌∷◌,
  Option, none, some, get_elem?, inl, inr, Bool-cases,
}
use aic_lib.Memory.{Ptr, Memory}
use aic_lib.Memory.Region.{IsString, Mapped}

-- Two blocks of bytes, from 100 and from 200 on. Nothing else is mapped.
abbrev pub blocks : List ℕ → List ℕ → Memory
blocks xs ys q =
    if ltb q 100 then none else if ltb q 200 then get_elem? xs (q - 100) else get_elem? ys (q - 200)

abbrev is_byte : Option ℕ → ℕ → Bool
is_byte none c = false
is_byte (some b) c = b == c

abbrev pub is_string : Memory → Ptr → List ℕ → Bool
is_string m p [] = is_byte (m p) 0
is_string m p (x ∷ xs) = is_byte (m p) x && (ltb 0 x && is_string m (suc p) xs)

is_byte_sound : (o : Option ℕ) (c : ℕ) → is_byte o c ≡ true → o ≡ some c
is_byte_sound none c e = ground arith
is_byte_sound (some b) c e = ground arith

pub is_string_sound :
    (m : Memory) (p : Ptr) (xs : List ℕ) → is_string m p xs ≡ true → IsString m p xs
is_string_sound m p [] e = is_byte_sound (m p) 0 e
is_string_sound m p (x ∷ xs) e = (
  is_byte_sound (m p) x (ground arith),
  ground arith,
  is_string_sound m (suc p) xs (ground arith),
)

abbrev is_some : Option ℕ → Bool
is_some none = false
is_some (some b) = true

abbrev pub is_mapped : Memory → Ptr → ℕ → Bool
is_mapped m p zero = true
is_mapped m p (suc n) = is_some (m p) && is_mapped m (suc p) n

pub is_mapped_sound : (m : Memory) (p : Ptr) (n : ℕ) → is_mapped m p n ≡ true → Mapped m p n
is_mapped_sound m p zero e q lo hi = absurd (omega arith)
is_mapped_sound m p (suc n) e q lo hi = elim (Bool-cases (q == p)) [
  | inl same ↦ λ z. ground arith
  | inr other ↦ is_mapped_sound m (suc p) n (ground arith) q (ground arith) (omega arith)
]
