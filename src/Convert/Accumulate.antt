-- ===== src/Convert/Accumulate.antt =====
-- The accumulation of digits against the number that they stand for.
use aic_lib.Base.{
  ℕ, ◌+◌, ◌*◌, ◌/◌, ◌%◌, ◌<◌, ◌≤◌, ◌≡◌, refl, arith, List, [], ◌∷◌, All, ltb, ◌==◌, ◌||◌, ◌&&◌,
  Bool-cases, inl, inr, ap, if◌then◌else◌, ◌∙◌, ==_iff,
}
use native.Mathlib.Nat.{mod-lt, mod-eq_of_lt, div-add-mod'}
use aic_lib.Convert.{digits, overflow, add_digit}
use aic_lib.Convert.Digits.{accumulate}

-- The number that the digits stand for, behind the digits of `acc`.
unfoldable pub value : ℕ → ℕ → List ℕ → ℕ
value base acc [] = acc
value base acc (d ∷ ds) = value base (acc * base + d) ds

le-value : (base acc : ℕ) (ds : List ℕ) → 1 ≤ base → acc ≤ value base acc ds
unfolding value
le-value base acc [] h = omega arith
le-value base acc (d ∷ ds) h = grind (arith, le-value base (acc * base + d) ds)

mul_step : (a b c : ℕ) → a < b → a * c + c ≤ b * c
mul_step a b c h = grind arith

-- Two numbers in a base compare by the quotients, then by the last digits.
compare_split :
    (q r base acc d : ℕ)
    → r < base
    → d < base
    → (ltb q acc || ((acc == q) && ltb r d)) ≡ ltb (q * base + r) (acc * base + d)
compare_split q r base acc d hr hd = elim (Bool-cases (ltb q acc)) [
  | inl more ↦ ground (arith, more, mul_step q acc base)
  | inr le ↦ elim (Bool-cases (acc == q)) [
    | inl same ↦ ground (arith, le, same, ap (λ (t : ℕ). t * base) ((==_iff acc q).0 same))
    | inr less ↦ ground (arith, le, less, mul_step acc q base)
  ]
]

module _ (half base top : ℕ) (pos_base : 1 ≤ base) (fits : top < 2 * half) where
  -- The test on `cutoff` and `cutlim` is exactly that the next value passes `top`.
  cutoff_test :
      (acc d : ℕ)
      → d < base
      → (ltb (top / base) acc || ((acc == top / base) && ltb (top % base) d))
        ≡ ltb top (acc * base + d)
  cutoff_test acc d lt =
      compare_split (top / base) (top % base) base acc d (mod-lt top pos_base) lt
      ∙ ap (λ t. ltb t (acc * base + d)) (div-add-mod' top base)

  -- One more digit.
  add_digit-digits :
      (acc d : ℕ)
      → d < base
      → add_digit half base (top / base) (top % base) (digits, acc) d
        ≡ (if ltb top (acc * base + d) then (overflow, acc) else (digits, acc * base + d))
  unfolding add_digit
  add_digit-digits acc d lt = elim (Bool-cases (ltb top (acc * base + d))) [
    | inl over ↦ rw (cutoff_test acc d lt, over) refl
    | inr under ↦
        let small : (acc * base + d) % (2 * half) ≡ acc * base + d = mod-eq_of_lt (ground arith) in
        rw (cutoff_test acc d lt, under, small) refl
  ]

  accumulate_overflow :
      (acc : ℕ) (ds : List ℕ)
      → accumulate half base (top / base) (top % base) (overflow, acc) ds ≡ (overflow, acc)
  unfolding accumulate add_digit
  accumulate_overflow acc [] = refl
  accumulate_overflow acc (d ∷ ds) = accumulate_overflow acc ds

  -- With a value within `top` so far, the loop ends with the number if that is within `top`,
  -- and has seen an overflow if not.
  pub accumulate-value :
      (acc : ℕ) (ds : List ℕ)
      → All (λ d. d < base) ds
      → acc ≤ top
      → (value base acc ds ≤ top
          → accumulate half base (top / base) (top % base) (digits, acc) ds
            ≡ (digits, value base acc ds))
        × (top < value base acc ds
            → (accumulate half base (top / base) (top % base) (digits, acc) ds).0 ≡ overflow)
  unfolding accumulate value
  accumulate-value acc [] hd le = (λ _. refl, λ lt. absurd (omega arith))
  accumulate-value acc (d ∷ ds) hd le = elim (Bool-cases (ltb top (acc * base + d))) [
    | inl over ↦ (
      λ within. absurd (ground (arith, over, le-value base (acc * base + d) ds pos_base)),
      λ lt.
          rw (add_digit-digits acc d hd.0, accumulate, over)
            (ap (λ r. r.0) (accumulate_overflow acc ds)),
    )
    | inr under ↦
        rw (add_digit-digits acc d hd.0, accumulate, under)
          (accumulate-value (acc * base + d) ds hd.1 (ground arith))
  ]
