-- ===== src/Linker/Load/Scanned.antt =====
-- The objects whose names have not been read yet, counted.
use aic_lib.Base.{
  ℕ, zero, suc, ◌≡◌, ◌<◌, ◌≤◌, arith, true, false, ◌==◌, if◌then◌else◌, Bool-cases, inl, inr,
}
use aic_lib.Linker.Init.{Flags, assign}

-- How many of the first `n` are not marked.
pub unmarked : Flags → ℕ → ℕ
unmarked f zero = 0
unmarked f (suc n) = if f n then unmarked f n else suc (unmarked f n)

pub unmarked-le : (f : Flags) (n : ℕ) → unmarked f n ≤ n
unfolding unmarked
unmarked-le f zero = omega arith
unmarked-le f (suc n) = ground (arith, unmarked-le f n)

pub unmarked-more :
    (f f' : Flags) (n : ℕ) → ((j : ℕ) → f j ≡ true → f' j ≡ true) → unmarked f' n ≤ unmarked f n
unfolding unmarked
unmarked-more f f' zero h = omega arith
unmarked-more f f' (suc n) h = elim (Bool-cases (f n)) [
  | inl e ↦ let e' = h n e in ground (arith, unmarked-more f f' n h)
  | inr e ↦ ground (arith, unmarked-more f f' n h)
]

pub assign_keeps : (f : Flags) (i j : ℕ) → f j ≡ true → assign f i true j ≡ true
unfolding assign
assign_keeps f i j h = ground arith

pub assign_other : (f : Flags) (i j : ℕ) → (i == j) ≡ false → assign f i true j ≡ f j
unfolding assign
assign_other f i j h = ground arith

pub assign_self : (f : Flags) (i : ℕ) → assign f i true i ≡ true
unfolding assign
assign_self f i = ground arith

-- Marking one that was not marked leaves one less.
pub unmarked-assign :
    (f : Flags) (i n : ℕ) → i < n → f i ≡ false → unmarked (assign f i true) n < unmarked f n
unfolding unmarked
unmarked-assign f i zero lt h = absurd (omega (arith, lt))
unmarked-assign f i (suc n) lt h = elim (Bool-cases (i == n)) [
  | inl e ↦
      let same : i ≡ n = ground arith in
      let new : f n ≡ false = rw⁻¹ same h in
      let marked : assign f i true n ≡ true = rw⁻¹ same (assign_self f i) in
      let more = unmarked-more f (assign f i true) n (λ j. assign_keeps f i j) in
      rw (new, marked) (omega (arith, more))
  | inr ne ↦
      let less = unmarked-assign f i n (ground arith) h in
      let kept = assign_other f i n ne in
      elim (Bool-cases (f n)) [
        | inl t ↦ rw (kept, t) (omega (arith, less))
        | inr t ↦ rw (kept, t) (omega (arith, less))
      ]
]
