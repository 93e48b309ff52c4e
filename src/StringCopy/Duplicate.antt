-- ===== src/StringCopy/Duplicate.antt =====
-- `strdup` and `strndup`, over what their `malloc` returns.
use native.Mathlib.Numerals.{add-one}
use aic_lib.Base.{
  ℕ, suc, ◌+◌, ◌<◌, ◌≤◌, ◌≡◌, ◌≢◌, ◌⊎◌, arith, inl, inr, none, List, [], ◌∷◌, length, ◌==◌, ◌∙◌,
  ltb, Bool-cases,
}
use aic_lib.Memory.{Ptr, null, Memory, Cmd}
use aic_lib.Memory.Region.{IsString, IsString-frame, Mapped, SameOutside, Apart}
use aic_lib.Memory.Ends
use aic_lib.Memory.Ends.{Ends, ends}
use aic_lib.CString.Length.{strlen-IsString}
use aic_lib.Block.Copy.{memcpy-Copied}
use aic_lib.StringCopy.{strdup}

-- What the C standard says of `malloc(n)`: `NULL`, or a block of `n` bytes that was not part of
-- any object; the objects that exist keep their contents.
pub record Allocated (n : ℕ) (m : Memory) (p : Ptr) (m' : Memory) : Type 0 where
  pub kept : (q : Ptr) → m q ≢ none → m' q ≡ m q
  pub block : (p ≡ null) ⊎ (Mapped m' p n × ((q : Ptr) → p ≤ q → q < p + n → m q ≡ none))

-- A mapped stretch and one that is not share no address.
Apart-fresh :
    (m : Memory) (p n s k : ℕ)
    → ((q : Ptr) → p ≤ q → q < p + n → m q ≡ none)
    → Mapped m s k
    → 0 < n
    → 0 < k
    → Apart p n s k
Apart-fresh m p n s k fresh hs ln lk = elim (Bool-cases (ltb s p)) [
  | inl lt ↦ elim (Bool-cases (ltb p (s + k))) [
    | inl meet ↦ absurd (hs p (ground arith) (ground arith) (fresh p (ground arith) (ground arith)))
    | inr apart ↦ inr (ground arith)
  ]
  | inr ge ↦ elim (Bool-cases (ltb s (p + n))) [
    | inl meet ↦ absurd (hs s (ground arith) (ground arith) (fresh s (ground arith) (ground arith)))
    | inr apart ↦ inl (ground arith)
  ]
]

-- A string's bytes are mapped, with its terminator.
IsString-Mapped :
    (m : Memory) (s : Ptr) (xs : List ℕ) → IsString m s xs → Mapped m s (suc (length xs))
IsString-Mapped m s [] h q lo hi = λ z. ground (arith, h)
IsString-Mapped m s (x ∷ xs) h q lo hi = elim (Bool-cases (q == s)) [
  | inl e ↦ λ z. ground (arith, h.0)
  | inr ne ↦ IsString-Mapped m (suc s) xs h.2 q (ground arith) (omega arith)
]

-- The bytes of a string and its terminator, copied, are that string.
IsString-copied :
    (d s : ℕ) (m m' : Memory) (xs : List ℕ)
    → IsString m s xs
    → ((i : ℕ) → i < suc (length xs) → m' (d + i) ≡ m (s + i))
    → IsString m' d xs
IsString-copied d s m m' [] h eq = ground (arith, eq 0)
IsString-copied d s m m' (x ∷ xs) h eq = (
  ground (arith, eq 0, h.0),
  h.1,
  IsString-copied (suc d) (suc s) m m' xs h.2 (λ i lt. ground (arith, eq (suc i))),
)

-- The block was not mapped before, so what was mapped lies outside it.
kept_outside :
    (m m₁ m' : Memory) (d n : ℕ)
    → ((q : Ptr) → m q ≢ none → m₁ q ≡ m q)
    → ((q : Ptr) → d ≤ q → q < d + n → m q ≡ none)
    → SameOutside d n m₁ m'
    → (q : Ptr) → m q ≢ none
    → m' q ≡ m q
kept_outside m m₁ m' d n kept fresh same q ne = elim (Bool-cases (ltb q d)) [
  | inl lt ↦ same q (inl (ground arith)) ∙ kept q ne
  | inr ge ↦ elim (Bool-cases (ltb q (d + n))) [
    | inl in_block ↦ absurd (ne (fresh q (ground arith) (ground arith)))
    | inr past ↦ same q (inr (ground arith)) ∙ kept q ne
  ]
]

-- Where `malloc` keeps its promise for `length + 1` bytes, `strdup` of a C string returns `NULL`
-- or a fresh address with an equal string, and every byte that was mapped keeps its value.
pub strdup-IsString :
    (malloc : ℕ → Cmd Ptr) (k s : ℕ) (m : Memory) (xs : List ℕ)
    → IsString m s xs
    → length xs < k
    → Ends (Allocated (length xs + 1) m) (malloc (length xs + 1) m)
    → Ends
        (λ p m'.
          ((p ≡ null) ⊎ (IsString m' p xs × (m p ≡ none))) × ((q : Ptr) → m q ≢ none → m' q ≡ m q))
        (strdup malloc k s m)
unfolding strdup
strdup-IsString malloc k s m xs h lt got = rw (strlen-IsString k s m xs h lt) (
    Ends.and_then got (λ d m₁ a. elim (Bool-cases (d == null)) [
      | inl e ↦ rw e (ends (inl (ground arith), a.kept))
      | inr ne ↦ elim a.block [
        | inl e ↦ absurd (ground arith)
        | inr (block, fresh) ↦
            let hs : Mapped m s (length xs + 1) = rw add-one (IsString-Mapped m s xs h) in
            let src = IsString-frame m m₁ s xs (λ q lo hi. a.kept q (hs q lo (omega arith))) h in
            rw ne (
              Ends.and_then
                (memcpy-Copied d s (length xs + 1) m₁ (rw add-one (IsString-Mapped m₁ s xs src))
                  block
                  (Apart-fresh m d (length xs + 1) s (length xs + 1) fresh hs (omega arith)
                    (omega arith)))
                (λ p m' (e, c). ends (
                  inr (
                    IsString-copied d s m₁ m' xs src (λ i li. c.bytes i (omega arith)),
                    fresh d (omega arith) (omega arith),
                  ),
                  kept_outside m m₁ m' d (length xs + 1) a.kept fresh c.same,
                )))
      ]
    ]))
