-- ===== src/Convert/Itoa/Reverse.antt =====
-- The two loops of `itoa`: the digits from the last one on, and their reversal in place.
use native.Mathlib.Nat.{mod-lt, pow-zero}
use mathlib.Core.List.{reverse-append, reverse-cons}
use aic_lib.Base.{
  ℕ, zero, suc, ◌+◌, ◌-◌, ◌/◌, ◌%◌, ◌^◌, ◌<◌, ◌≤◌, ◌≡◌, refl, arith, List, [], ◌∷◌, ◌++◌, length,
  length-append, length-reverse, reverse, ◌==◌, ltb, some, true, false, inl, inr, Bool-cases,
  get_elem?, ◌∙◌, ap, all_below_lem,
}
use aic_lib.Memory.{Memory, write, done}
use aic_lib.Memory.Region.{
  Holds, Holds-frame, Mapped, Mapped-write, SameOutside, mapped_byte, load-done, store-done,
  write_same, write_other,
}
use aic_lib.Memory.Ends
use aic_lib.Memory.Ends.{Ends, ends}
use aic_lib.Format.Number.{digit_char, digits_loop}
use aic_lib.Format.Number.Numerals.{is_some_digit, is_some_digit_sound, quotient_fits}
use aic_lib.Convert.Itoa.{digits, digit_at, itoa_loop, reverse_loop}

Holds-append :
    (m : Memory) (p q : ℕ) (xs ys : List ℕ)
    → q ≡ p + length xs
    → Holds m p xs
    → Holds m q ys
    → Holds m p (xs ++ ys)
Holds-append m p q [] ys e h k = let same : p ≡ q = omega arith in rw same k
Holds-append m p q (x ∷ xs) ys e h k = (h.0, Holds-append m (suc p) q xs ys (omega arith) h.1 k)

Holds-parts :
    (m : Memory) (p q : ℕ) (xs ys : List ℕ)
    → q ≡ p + length xs
    → Holds m p (xs ++ ys)
    → Holds m p xs × Holds m q ys
Holds-parts m p q [] ys e h = let same : p ≡ q = omega arith in (tt, rw same at h)
Holds-parts m p q (x ∷ xs) ys e h =
    let (front, back) = Holds-parts m (suc p) q xs ys (omega arith) h.1 in ((h.0, front), back)

digits-digit_char : (d : ℕ) → d < 16 → get_elem? digits d ≡ some (digit_char false d)
unfolding digit_char
digits-digit_char d lt =
    is_some_digit_sound (get_elem? digits d) (digit_char false d)
      (all_below_lem (λ i. is_some_digit (get_elem? digits i) (digit_char false i)) 16 d refl lt)

digit_at-digit_char : (d : ℕ) (m : Memory) → d < 16 → digit_at d m ≡ done (digit_char false d) m
unfolding digit_at
digit_at-digit_char d m lt = rw (digits-digit_char d lt, digit_at) refl

module _ (base : ℕ) (low : 2 ≤ base) (high : base ≤ 16) where
  pub itoa_loop-Holds :
      (left k v p : ℕ) (m : Memory)
      → v < 2 ^ left
      → left < k
      → Mapped m p left
      → Ends
          (λ r m'.
            (r ≡ p + length (digits_loop left v base false))
            × Holds m' p (digits_loop left v base false)
            × SameOutside p (length (digits_loop left v base false)) m m')
          (itoa_loop k v base p m)
  unfolding itoa_loop digits_loop
  itoa_loop-Holds left zero v p m small lt h = absurd (omega arith)
  itoa_loop-Holds zero (suc k) v p m small lt h =
      let e : v ≡ 0 = omega (arith, pow-zero 2) in rw e (ends (omega arith, tt, λ q out. refl))
  itoa_loop-Holds (suc left) (suc k) v p m small lt h = elim (Bool-cases (v == 0)) [
    | inl none_left ↦ rw none_left (ends (omega arith, tt, λ q out. refl))
    | inr more ↦
        let c = digit_char false (v % base) in
        let some_base : (base == 0) ≡ false = ground arith in
        let one : p + 1 ≡ suc p = omega arith in
        let digit = digit_at-digit_char (v % base) m (omega (arith, mod-lt v)) in
        let (o, at) = mapped_byte m p (h p (omega arith) (omega arith)) in
        let next =
          itoa_loop-Holds left k (v / base) (p + 1) (write m p c)
            (quotient_fits base false low (omega arith) left v small) (omega arith)
            (Mapped-write m p c (p + 1) left (λ q lo hi. h q (omega arith) (omega arith))) in
        rw more (
          rw some_base (
            rw (digit, store-done m p c at)
              (Ends.weaken next (λ r m' (e, held, same). (
                omega arith,
                (same p (inl (omega arith)) ∙ write_same m p c, rw one at held),
                λ q out. same q (omega arith) ∙ write_other m p q c (omega arith),
              )))))
  ]

-- A list with the elements at its two ends.
data BothEnds : List ℕ → Type 0 where
  empty : BothEnds []
  single : (x : ℕ) → BothEnds (x ∷ [])
  between : (x : ℕ) (ws : List ℕ) (y : ℕ) → BothEnds (x ∷ (ws ++ (y ∷ [])))

add_front : (x : ℕ) (xs : List ℕ) → BothEnds xs → BothEnds (x ∷ xs)
add_front x _ empty = single x
add_front x _ (single y) = between x [] y
add_front x _ (between y ws z) = between x (y ∷ ws) z

both_ends : (xs : List ℕ) → BothEnds xs
both_ends [] = empty
both_ends (x ∷ xs) = add_front x xs (both_ends xs)

reverse-between :
    (x : ℕ) (ws : List ℕ) (y : ℕ) → reverse (x ∷ (ws ++ (y ∷ []))) ≡ y ∷ (reverse ws ++ (x ∷ []))
reverse-between x ws y =
    reverse-cons x (ws ++ (y ∷ [])) ∙ ap (λ zs. zs ++ (x ∷ [])) (reverse-append ws (y ∷ []))

-- The two bytes that a round exchanges, around those in between.
Holds-exchange :
    (m m' : Memory) (p q x y : ℕ) (ws : List ℕ)
    → q ≡ suc p + length ws
    → Holds m' (suc p) (reverse ws)
    → SameOutside (suc p) (length ws) (write (write m p y) q x) m'
    → Holds m' p (reverse (x ∷ (ws ++ (y ∷ []))))
Holds-exchange m m' p q x y ws e held same = rw (reverse-between x ws y) (
  same p (inl (omega arith)) ∙ write_other (write m p y) q p x (omega arith) ∙ write_same m p y,
  Holds-append m' (suc p) q (reverse ws) (x ∷ []) (omega (arith, e, length-reverse ws)) held
      (same q (inr (omega arith)) ∙ write_same (write m p y) q x, tt),
)

reverse_loop-BothEnds :
    (k p q : ℕ) (m : Memory) (xs : List ℕ)
    → BothEnds xs
    → length xs < k
    → q ≡ p + length xs - 1
    → Holds m p xs
    → Ends (λ _ m'. Holds m' p (reverse xs) × SameOutside p (length xs) m m') (reverse_loop k p q m)
unfolding reverse_loop
reverse_loop-BothEnds zero p q m xs view lt e h = absurd (omega arith)
reverse_loop-BothEnds (suc k) p q m _ empty lt e h =
    let stop : ltb p q ≡ false = ground arith in rw stop (ends (tt, λ r out. refl))
reverse_loop-BothEnds (suc k) p q m _ (single x) lt e h =
    let stop : ltb p q ≡ false = ground arith in rw stop (ends (h, λ r out. refl))
reverse_loop-BothEnds (suc k) p q m _ (between x ws y) lt e h =
    let size = length-append ws (y ∷ []) in
    let last : q ≡ suc p + length ws = omega arith in
    let go : ltb p q ≡ true = ground arith in
    let (front, (at, _)) = Holds-parts m (suc p) q ws (y ∷ []) last h.1 in
    let m₁ = write m p y in
    let m₂ = write m₁ q x in
    let at₁ = write_other m p q y (omega arith) ∙ at in
    let inner : Holds m₂ (suc p) ws =
      Holds-frame m m₂ (suc p) ws
        (λ r lo hi. write_other m₁ q r x (omega arith) ∙ write_other m p r y (omega arith)) front in
    let one : suc p ≡ p + 1 = omega arith in
    let next =
      reverse_loop-BothEnds k (p + 1) (q - 1) m₂ ws (both_ends ws) (omega arith) (omega arith)
        (rw one at inner) in
    rw go (
      rw (load-done m p h.0, load-done m q at, store-done m p y h.0, store-done m₁ q x at₁)
        (Ends.weaken next (λ _ m' (held, same). (
          Holds-exchange m m' p q x y ws last (rw (← one) at held) (λ r out. same r (omega arith)),
          λ r out.
              same r (omega (arith, size))
              ∙ write_other m₁ q r x (omega (arith, size))
              ∙ write_other m p r y (omega (arith, size)),
        ))))

-- Reversing in place.
pub reverse_loop-Holds :
    (k p q : ℕ) (m : Memory) (xs : List ℕ)
    → length xs < k
    → q ≡ p + length xs - 1
    → Holds m p xs
    → Ends (λ _ m'. Holds m' p (reverse xs) × SameOutside p (length xs) m m') (reverse_loop k p q m)
reverse_loop-Holds k p q m xs lt e h = reverse_loop-BothEnds k p q m xs (both_ends xs) lt e h
