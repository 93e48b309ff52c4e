-- ===== src/Format/Agreement/Digits.antt =====
-- The sign, the mark and the digits of a number in vsnprintf.c against their meaning.
use aic_lib.Base.{
  ℕ, ◌+◌, ◌-◌, ◌≡◌, refl, arith, Bool, true, false, not, ◌&&◌, ◌==◌, ltb, min, if◌then◌else◌, List,
  [], ◌∷◌, ◌++◌, length, replicate, inl, inr, Bool-cases,
}
use aic_lib.Format.Integer.{Flags, prefix_of, number_text}
use aic_lib.Format.Field.{
  Length, length_none, length_hh, length_h, length_l, length_ll, length_j, length_z, length_t,
  length_ldbl, bits,
}
use aic_lib.Format.Driver.{magnitude, is_negative}
use aic_lib.Format.Meaning.{
  below_zero, absolute, front_text, digits_text, sign_text, mark_text, type_bits,
}

pub below_zero-is_negative : (b w : ℕ) → below_zero b w ≡ is_negative b w
below_zero-is_negative b w = ground arith

pub absolute-magnitude : (b w : ℕ) → absolute b w ≡ magnitude b w
absolute-magnitude b w = ground arith

sign_same :
    (fl : Flags) (is_signed negative : Bool)
    → sign_text fl is_signed negative ≡ (
        if is_signed
        then (if negative
            then b'-' ∷ []
            else if fl.plus
            then b'+' ∷ []
            else if fl.space
            then b' ' ∷ []
            else [])
        else [])
sign_same fl true true = refl
sign_same fl true false = refl
sign_same fl false negative = refl

mark_same :
    (base : ℕ) (upper : Bool)
    → mark_text base upper ≡ (
        if base == 8
        then b'0' ∷ []
        else if base == 16
        then b'0' ∷ (if upper then b'X' else b'x') ∷ []
        else if base == 2
        then b'0' ∷ (if upper then b'B' else b'b') ∷ []
        else [])
mark_same base upper = elim (Bool-cases (base == 8)) [
  | inl octal ↦
      let not16 : (base == 16) ≡ false = ground arith in
      let not2 : (base == 2) ≡ false = ground arith in rw (octal, not16, not2) refl
  | inr other ↦ rw other refl
]

mark_test : (value : ℕ) (hash : Bool) → (ltb 0 value && hash) ≡ (hash && not (value == 0))
mark_test value true = ground arith
mark_test value false = ground arith

pub front_text-prefix_of :
    (value base : ℕ) (fl : Flags) (is_signed negative : Bool)
    → front_text value base fl is_signed negative ≡ prefix_of value base fl is_signed negative
unfolding front_text prefix_of
front_text-prefix_of value base fl is_signed negative =
    rw (sign_same fl is_signed negative, mark_same base fl.uppercase, mark_test value fl.hash) refl

none_test :
    (value precision : ℕ) (given : Bool)
    → (given && (value + precision == 0)) ≡ ((value == 0) && ((precision == 0) && given))
none_test value precision true = ground arith
none_test value precision false = ground arith

zeros_same :
    (precision : ℕ) (num : List ℕ)
    → replicate (min precision 128 - length num) b'0' ++ num ≡ (
        if ltb 0 precision && ltb (length num) precision
        then replicate (min (precision - length num) (128 - length num)) b'0' ++ num
        else num)
zeros_same precision num = elim (Bool-cases (ltb 0 precision && ltb (length num) precision)) [
  | inl short ↦
      let same : min precision 128 - length num ≡ min (precision - length num) (128 - length num) =
        ground arith in
      rw (short, same) refl
  | inr long ↦
      let nothing : min precision 128 - length num ≡ 0 = ground arith in rw (long, nothing) refl
]

pub digits_text-number_text :
    (value base : ℕ) (fl : Flags) (precision : ℕ)
    → digits_text value base fl precision ≡ number_text value base fl precision
unfolding digits_text number_text
digits_text-number_text value base fl precision =
    rw (none_test value precision fl.has_precision) (zeros_same precision _)

pub type_bits-bits : (l : Length) → type_bits l ≡ bits l
type_bits-bits length_none = refl
type_bits-bits length_ldbl = refl
type_bits-bits length_hh = refl
type_bits-bits length_h = refl
type_bits-bits length_l = refl
type_bits-bits length_ll = refl
type_bits-bits length_j = refl
type_bits-bits length_z = refl
type_bits-bits length_t = refl
