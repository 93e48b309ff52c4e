-- ===== src/Convert/Itoa/Written.antt =====
-- What `itoa` leaves in the buffer: the digits that vsnprintf.c would write, behind a sign.
use mathlib.Core.Path.{subst}
use aic_lib.Base.{
  ℕ, suc, ◌+◌, ◌-◌, ◌*◌, ◌^◌, ◌<◌, ◌≤◌, ◌≡◌, refl, arith, List, [], ◌∷◌, length, length-reverse,
  reverse, All, ◌==◌, if◌then◌else◌, some, true, false, inl, inr, Bool-cases, ◌∙◌, sym,
}
use aic_lib.Base.Int.{ℤ, pos, negsuc}
use aic_lib.Memory.{Memory, write}
use aic_lib.Memory.Region.{
  Holds, Holds-frame, IsString, Mapped, Mapped-write, SameOutside, mapped_byte, store-done,
  write_same, write_other,
}
use aic_lib.Memory.Ends
use aic_lib.Memory.Ends.{Ends, ends}
use aic_lib.Format.Number.{digits_loop, temp_digits, uint_to_string}
use aic_lib.Format.Number.Numerals.{
  NonZero, length-digits_loop, uint_to_string-zero, uint_to_string-reverse, uint_to_string-NonZero,
}
use aic_lib.Convert.Itoa.{split_sign, write_digits, write_number, itoa}
use aic_lib.Convert.Itoa.Reverse.{itoa_loop-Holds, reverse_loop-Holds}

Holds-IsString :
    (m : Memory) (p q : ℕ) (xs : List ℕ)
    → q ≡ p + length xs
    → All NonZero xs
    → Holds m p xs
    → m q ≡ some 0
    → IsString m p xs
Holds-IsString m p q [] e ne h z = let same : p ≡ q = omega arith in rw same z
Holds-IsString m p q (x ∷ xs) e ne h z =
    (h.0, ne.0, Holds-IsString m (suc p) q xs (omega arith) ne.1 h.1 z)

-- The text behind the sign.
abbrev pub numeral : ℕ → ℕ → List ℕ
numeral v base = uint_to_string 64 v base false

module _ (base : ℕ) (low : 2 ≤ base) (high : base ≤ 16) where
  abbrev Written : ℕ → ℕ → ℕ → Memory → ℕ → Memory → Type 0
  Written buf p v m r m' = (r ≡ buf) × IsString m' p (numeral v base) × SameOutside p 65 m m'

  pub numeral-reverse :
      (v : ℕ) → (v == 0) ≡ false → numeral v base ≡ reverse (digits_loop 64 v base false)
  unfolding temp_digits
  numeral-reverse v more =
      uint_to_string-reverse base false low (omega arith) 64 v (omega arith) more

  write_digits-zero :
      (k buf p : ℕ) (m : Memory)
      → Mapped m p 65
      → Ends (Written buf p 0 m) (write_digits k 0 buf p base m)
  unfolding write_digits
  write_digits-zero k buf p m h =
      let text = uint_to_string-zero base false low (omega arith) 64 (omega arith) in
      let m₁ = write m p b'0' in
      let m₂ = write m₁ (p + 1) 0 in
      let next : suc p ≡ p + 1 = omega arith in
      let (o, at) = mapped_byte m p (h p (omega arith) (omega arith)) in
      let (o', at') =
        mapped_byte m₁ (p + 1) (Mapped-write m p b'0' p 65 h (p + 1) (omega arith) (omega arith)) in
      rw (store-done m p b'0' at) (
        rw (store-done m₁ (p + 1) 0 at') (
          ends (
            refl,
            subst (λ t. IsString m₂ p t) (sym text)
                (
                  write_other m₁ (p + 1) p 0 (omega arith) ∙ write_same m p b'0',
                  (λ z. omega (arith, z)),
                  rw next (write_same m₁ (p + 1) 0),
                ),
            λ q out.
                write_other m₁ (p + 1) q 0 (omega arith) ∙ write_other m p q b'0' (omega arith),
          )))

  write_digits-more :
      (k v buf p : ℕ) (m : Memory)
      → v < 2 ^ 64
      → (v == 0) ≡ false
      → 64 < k
      → Mapped m p 65
      → Ends (Written buf p v m) (write_digits k v buf p base m)
  unfolding write_digits
  write_digits-more k v buf p m small more lt h =
      let ds = digits_loop 64 v base false in
      let size = length-digits_loop base false low (omega arith) 64 v in
      let turned = length-reverse ds in
      let text = numeral-reverse v more in
      rw more (
        Ends.and_then
          (itoa_loop-Holds base low high 64 k v p m small lt (λ q lo hi. h q lo (omega arith)))
          (λ r m₁ (e, held, same).
            let (o, at) =
              mapped_byte m₁ r (λ gone.
                h r (omega arith) (omega arith) (sym (same r (inr (omega arith))) ∙ gone)) in
            let m₂ = write m₁ r 0 in
            let held₂ : Holds m₂ p ds =
              Holds-frame m₁ m₂ p ds (λ q lo hi. write_other m₁ r q 0 (omega arith)) held in
            rw (store-done m₁ r 0 at) (
              Ends.and_then (reverse_loop-Holds k p (r - 1) m₂ ds (omega arith) (omega arith) held₂)
                (λ _ m₃ (back, kept). ends (
                  refl,
                  subst (λ t. IsString m₃ p t) (sym text)
                      (Holds-IsString m₃ p r (reverse ds) (omega arith)
                        (subst (λ t. All NonZero t) text (uint_to_string-NonZero 64 v base false))
                        back (kept r (inr (omega arith)) ∙ write_same m₁ r 0)),
                  λ q out.
                      kept q (omega arith)
                      ∙ write_other m₁ r q 0 (omega arith)
                      ∙ same q (omega arith),
                )))))

  write_digits-Written :
      (k v buf p : ℕ) (m : Memory)
      → v < 2 ^ 64
      → 64 < k
      → Mapped m p 65
      → Ends (Written buf p v m) (write_digits k v buf p base m)
  write_digits-Written k v buf p m small lt h = elim (Bool-cases (v == 0)) [
    | inl zero_left ↦
        let e : 0 ≡ v = ground arith in
        subst (λ x. Ends (Written buf p x m) (write_digits k x buf p base m)) e
          (write_digits-zero k buf p m h)
    | inr more ↦ write_digits-more k v buf p m small more lt h
  ]

  abbrev Wrote : ℕ → Memory → List ℕ → ℕ → Memory → Type 0
  Wrote buf m text r m' = (r ≡ buf) × IsString m' buf text × SameOutside buf 66 m m'

  plain-Wrote :
      (k v buf : ℕ) (m : Memory)
      → v < 2 ^ 64
      → 64 < k
      → Mapped m buf 66
      → Ends (Wrote buf m (numeral v base)) (write_number k (false, v) buf base m)
  unfolding write_number
  plain-Wrote k v buf m small lt h =
      Ends.weaken (write_digits-Written k v buf buf m small lt (λ q lo hi. h q lo (omega arith)))
        (λ r m' (e, str, same). (e, str, λ q out. same q (omega arith)))

  signed-Wrote :
      (k v buf : ℕ) (m : Memory)
      → v < 2 ^ 64
      → 64 < k
      → Mapped m buf 66
      → Ends (Wrote buf m (b'-' ∷ numeral v base)) (write_number k (true, v) buf base m)
  unfolding write_number
  signed-Wrote k v buf m small lt h =
      let m₁ = write m buf b'-' in
      let next : buf + 1 ≡ suc buf = omega arith in
      let (o, at) = mapped_byte m buf (h buf (omega arith) (omega arith)) in
      let kept = Mapped-write m buf b'-' buf 66 h in
      rw (store-done m buf b'-' at) (
        Ends.weaken
          (write_digits-Written k v buf (buf + 1) m₁ small lt
            (λ q lo hi. kept q (omega arith) (omega arith)))
          (λ r m' (e, str, same). (
            e,
            (
              same buf (inl (omega arith)) ∙ write_same m buf b'-',
              (λ z. omega (arith, z)),
              rw next at str,
            ),
            λ q out. same q (omega arith) ∙ write_other m buf q b'-' (omega arith),
          )))

-- A number that fits in a `long`.
abbrev pub IsLong : ℕ → ℤ → Type 0
IsLong half (pos n) = n < half
IsLong half (negsuc n) = n < half

-- The text that `itoa` is to write.
abbrev pub itoa_text : ℕ → ℤ → ℕ → List ℕ
itoa_text half (pos n) base = numeral n base
itoa_text half (negsuc n) base =
    if base == 10 then b'-' ∷ numeral (n + 1) base else numeral (2 * half - suc n) base

-- For a `long` of at most 64 bits, a base from 2 to 16 and a buffer of 66 mapped bytes: `itoa` ends
-- without a fault, returns the buffer, writes nowhere else, and leaves in it a string: the digits
-- that vsnprintf.c writes in lower case, of the number where it is not negative, of its amount behind
-- a minus sign in base 10, and else of its two's complement.
pub itoa-itoa_text :
    (half k : ℕ) (val : ℤ) (buf base : ℕ) (m : Memory)
    → 2 * half ≤ 2 ^ 64
    → IsLong half val
    → 2 ≤ base
    → base ≤ 16
    → 64 < k
    → Mapped m buf 66
    → Ends
        (λ r m'. (r ≡ buf) × IsString m' buf (itoa_text half val base) × SameOutside buf 66 m m')
        (itoa half k val buf base m)
unfolding itoa split_sign write_number
itoa-itoa_text half k (pos n) buf base m wide fits low high lt h =
    plain-Wrote base low high k n buf m (omega arith) lt h
itoa-itoa_text half k (negsuc n) buf base m wide fits low high lt h =
    elim (Bool-cases (base == 10)) [
      | inl ten ↦ rw ten (signed-Wrote base low high k (n + 1) buf m (omega arith) lt h)
      | inr other ↦
          rw other (plain-Wrote base low high k (2 * half - suc n) buf m (omega arith) lt h)
    ]
