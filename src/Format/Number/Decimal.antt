-- ===== src/Format/Number/Decimal.antt =====
-- The number that `parse_format_int` reads: the value of the digits at the front, at most `INT_MAX`.
use aic_lib.Base.{
  ℕ, ◌+◌, ◌-◌, ◌*◌, ◌≤◌, ◌≡◌, refl, arith, Bool, true, false, List, [], ◌∷◌, min, ap, inl, inr,
  Bool-cases, ltb, ◌/◌, if◌then◌else◌,
}
use aic_lib.Format.Number.{int_max, skip_digits, parse_int_loop, parse_format_int}
use aic_lib.Format.Meaning.{is_decimal, digit_run, behind_digits, decimal}

skip_digits-behind_digits : (format : List ℕ) → skip_digits format ≡ behind_digits format
unfolding skip_digits behind_digits
skip_digits-behind_digits [] = refl
skip_digits-behind_digits (c ∷ format) = elim (Bool-cases (is_decimal c)) [
  | inl digit ↦ rw digit (skip_digits-behind_digits format)
  | inr other ↦ rw other refl
]

le-decimal : (acc : ℕ) (cs : List ℕ) → acc ≤ decimal acc cs
unfolding decimal
le-decimal acc [] = omega arith
le-decimal acc (c ∷ cs) = omega (arith, le-decimal (acc * 10 + (c - 48)) cs)

min_small : (v : ℕ) → v ≤ int_max → v ≡ min v int_max
min_small v h = ground arith

min_large : (v : ℕ) → int_max ≤ v → int_max ≡ min v int_max
min_large v h = ground arith

parse_int_loop-decimal :
    (format : List ℕ) (v : ℕ)
    → v ≤ int_max
    → parse_int_loop format v true
      ≡ ((min (decimal v (digit_run format)) int_max, true), behind_digits format)
unfolding parse_int_loop digit_run behind_digits decimal
parse_int_loop-decimal [] v h = ap (λ x. ((x, true), [])) (min_small v h)
parse_int_loop-decimal (c ∷ format) v h = elim (Bool-cases (is_decimal c)) [
  | inr other ↦ rw other (ap (λ x. ((x, true), c ∷ format)) (min_small v h))
  | inl digit ↦ rw digit (
      let large : v * 10 + (c - 48) ≤ decimal (v * 10 + (c - 48)) (digit_run format) =
        le-decimal (v * 10 + (c - 48)) (digit_run format) in
      elim (Bool-cases (ltb (int_max / 10) v)) [
        | inl over ↦
            rw (over, skip_digits-behind_digits (c ∷ format), digit)
              (ap (λ x. ((x, true), behind_digits format))
                (min_large _ (ground (arith, large, over))))
        | inr fits ↦ elim (Bool-cases (ltb (int_max - (c - 48)) (v * 10))) [
          | inl over ↦
              rw (fits, over, skip_digits-behind_digits format)
                (ap (λ x. ((x, true), behind_digits format))
                  (min_large _ (ground (arith, large, over))))
          | inr small ↦
              rw (fits, small)
                (parse_int_loop-decimal format (v * 10 + (c - 48)) (ground (arith, small)))
        ]
      ])
]

pub parse_format_int-decimal :
    (format : List ℕ)
    → parse_format_int format 0 ≡ (min (decimal 0 (digit_run format)) int_max, behind_digits format)
unfolding parse_format_int parse_int_loop digit_run behind_digits decimal
parse_format_int-decimal [] = refl
parse_format_int-decimal (c ∷ format) = elim (Bool-cases (is_decimal c)) [
  | inr other ↦ rw other refl
  | inl digit ↦
      let room : ltb (int_max - (c - 48)) 0 ≡ false = ground arith in
      rw (digit, room)
        (ap (λ (x : (ℕ × Bool) × List ℕ). (if x.0.1 then x.0.0 else 0, x.1))
          (parse_int_loop-decimal format (0 * 10 + (c - 48)) (ground arith)))
]
