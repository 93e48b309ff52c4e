-- ===== src/Convert/Digits.antt =====
-- The digits at the front of a text, and the loops of `strtol` over them.
use aic_lib.Base.{
  ℕ, zero, suc, ◌+◌, ◌<◌, ◌≡◌, refl, arith, List, [], ◌∷◌, ◌++◌, length, get_or, All, none, some,
  leb, true, false, if◌then◌else◌, Bool-cases, Option-cases, inl, inr, ap,
}
use aic_lib.Memory.{Memory, done}
use aic_lib.Memory.Region.{IsString, IsString-head, load-done}
use aic_lib.Ctype.{isspace, isdigit, isalpha}
use aic_lib.Convert.{Seen, digit_value, add_digit, digit_loop, skip_spaces}

-- The values of the digits of the base that stand at the front.
unfoldable pub digit_prefix : ℕ → List ℕ → List ℕ
digit_prefix base [] = []
digit_prefix base (x ∷ xs) = elim (digit_value x) [
  | none ↦ []
  | some d ↦ if leb base d then [] else d ∷ digit_prefix base xs
]

-- The loop's state after some digits.
unfoldable pub accumulate : (half base cutoff cutlim : ℕ) → Seen × ℕ → List ℕ → Seen × ℕ
accumulate half base cutoff cutlim st [] = st
accumulate half base cutoff cutlim st (d ∷ ds) =
    accumulate half base cutoff cutlim (add_digit half base cutoff cutlim st d) ds

digit_value-zero : digit_value 0 ≡ none
unfolding digit_value isdigit isalpha
digit_value-zero = refl

-- `c` is the byte at `p`, and `s` points behind it.
pub digit_loop-digit_prefix :
    (half base cutoff cutlim : ℕ) (k : ℕ) (st : Seen × ℕ) (c p s : ℕ) (m : Memory) (xs : List ℕ)
    → IsString m p xs
    → length xs < k
    → c ≡ get_or xs 0 0
    → s ≡ suc p
    → digit_loop half base cutoff cutlim k st c s m
      ≡ done
          (
            accumulate half base cutoff cutlim st (digit_prefix base xs),
            s + length (digit_prefix base xs),
          )
          m
unfolding digit_loop accumulate digit_prefix
digit_loop-digit_prefix half base cutoff cutlim zero st c p s m xs h lt ec es = absurd (omega arith)
digit_loop-digit_prefix half base cutoff cutlim (suc k) st c p s m [] h lt ec es =
    ground (arith, digit_value-zero)
digit_loop-digit_prefix half base cutoff cutlim (suc k) st c p s m (x ∷ xs) h lt ec es =
    elim (Option-cases (digit_value x)) [
      | inl e ↦ ground (arith, e)
      | inr (d, e) ↦ ground (
        arith,
        e,
        load-done m (suc p) (IsString-head m (suc p) xs h.2),
        digit_loop-digit_prefix half base cutoff cutlim k (add_digit half base cutoff cutlim st d)
            (get_or xs 0 0) (suc p) (s + 1) m xs,
      )
    ]

-- Each of the digits is below the base.
pub digit_prefix-lt : (base : ℕ) (xs : List ℕ) → All (λ d. d < base) (digit_prefix base xs)
unfolding digit_prefix
digit_prefix-lt base [] = tt
digit_prefix-lt base (x ∷ xs) = elim (Option-cases (digit_value x)) [
  | inl e ↦ rw (e, digit_prefix) tt
  | inr (d, e) ↦
      rw (e, digit_prefix)
        (elim (Bool-cases (leb base d)) [
          | inl big ↦ rw big tt
          | inr small ↦ rw small (ground arith, digit_prefix-lt base xs)
        ])
]

-- White space in front is passed over, with a byte that is none behind it.
pub skip_spaces_lem :
    (k p : ℕ) (m : Memory) (ws xs : List ℕ)
    → IsString m p (ws ++ xs)
    → All (λ c. isspace c ≡ true) ws
    → isspace (get_or xs 0 0) ≡ false
    → length ws < k
    → skip_spaces k p m ≡ done (get_or xs 0 0, p + length ws + 1) m
unfolding skip_spaces
skip_spaces_lem zero p m ws xs h sp other lt = absurd (omega arith)
skip_spaces_lem (suc k) p m [] xs h sp other lt =
    rw (load-done m p (IsString-head m p xs h), other)
      (ap (λ s. done (get_or xs 0 0, s) m) (omega arith))
skip_spaces_lem (suc k) p m (w ∷ ws) xs h sp other lt =
    rw (load-done m p h.0, sp.0) (ground (arith, skip_spaces_lem k (suc p) m ws xs))
