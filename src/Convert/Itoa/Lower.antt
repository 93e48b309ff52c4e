-- ===== src/Convert/Itoa/Lower.antt =====
-- The bytes of the digits that `itoa` writes, and what `strtol` does not take them for.
use mathlib.Core.Path.{subst}
use aic_lib.Base.{
  ℕ, zero, suc, ◌<◌, ◌≤◌, ◌≡◌, refl, arith, Bool, List, [], ◌∷◌, All, get_or, ◌==◌, true, false,
  inl, inr, Bool-cases, all_below_lem, All-reverse_aux, not, ◌&&◌, ◌%◌, ◌/◌, sym,
}
use aic_lib.Ctype.{isspace}
use aic_lib.Convert.Strtol.{unsigned, has_prefix, NoSign}
use aic_lib.Format.Number.{digit_char, digits_loop}
use native.Mathlib.Nat.{mod-lt}
use aic_lib.Convert.Itoa.Written.{numeral, numeral-reverse}
use aic_lib.Format.Number.Numerals.{uint_to_string-zero}

-- A digit below 16, in lower case.
abbrev pub IsLower : ℕ → Type 0
IsLower c = (d : ℕ) × (d < 16) × (c ≡ digit_char false d)

module _ (base : ℕ) (low : 2 ≤ base) (high : base ≤ 16) where
  digits_loop-IsLower : (left v : ℕ) → All IsLower (digits_loop left v base false)
  unfolding digits_loop
  digits_loop-IsLower zero v = tt
  digits_loop-IsLower (suc left) v = elim (Bool-cases (v == 0)) [
    | inl none_left ↦ rw none_left tt
    | inr more ↦
        rw more ((v % base, omega (arith, mod-lt v), refl), digits_loop-IsLower left (v / base))
  ]

  pub numeral-IsLower : (v : ℕ) → All IsLower (numeral v base)
  unfolding digit_char
  numeral-IsLower v = elim (Bool-cases (v == 0)) [
    | inl none_left ↦
        let e : 0 ≡ v = ground arith in
        subst (λ x. All IsLower (numeral x base)) e
          (subst (λ t. All IsLower t)
            (sym (uint_to_string-zero base false low (omega arith) 64 (omega arith)))
            ((0, omega arith, refl), tt))
    | inr more ↦
        subst (λ t. All IsLower t) (sym (numeral-reverse base low high v more))
          (All-reverse_aux IsLower (digits_loop 64 v base false) [] (digits_loop-IsLower 64 v) tt)
  ]

-- Neither white space nor a sign nor the letter of a prefix.
abbrev is_plain : ℕ → Bool
is_plain c =
    not (isspace c)
    && (not (c == b'-') && (not (c == b'+') && (not (c == b'x') && not (c == b'X'))))

IsLower-plain : (c : ℕ) → IsLower c → is_plain c ≡ true
unfolding isspace digit_char
IsLower-plain c (d, lt, e) = rw e (all_below_lem (λ i. is_plain (digit_char false i)) 16 d refl lt)

pub no_prefix : (base : ℕ) (xs : List ℕ) → All IsLower xs → has_prefix base xs ≡ false
unfolding has_prefix
no_prefix base [] h = refl
no_prefix base (a ∷ []) h = refl
no_prefix base (a ∷ b ∷ xs) h = ground (arith, IsLower-plain b h.1.0)

pub no_space : (xs : List ℕ) → All IsLower xs → isspace (get_or xs 0 0) ≡ false
unfolding isspace
no_space [] h = refl
no_space (a ∷ xs) h = ground (arith, IsLower-plain a h.0)

pub no_sign : (xs : List ℕ) → All IsLower xs → NoSign unsigned xs
no_sign [] h = (λ e. omega (arith, e), λ e. omega (arith, e))
no_sign (a ∷ xs) h =
    let plain = IsLower-plain a h.0 in (λ e. ground (arith, plain), λ e. ground (arith, plain))
