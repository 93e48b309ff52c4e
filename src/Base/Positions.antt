-- ===== src/Base/Positions.antt =====
-- The binary digits of a number by their position, and what `&`, `|` and `~` do to them.
use Prim.Native.Nat.{ℕ, zero, suc, ◌-◌, ◌*◌, ◌/◌, ◌%◌, ◌^◌, ◌≤◌, ◌<◌, min, max, bit_and, bit_or}
use mathlib.Core.Path.{◌≡◌, refl, ap, ◌∙◌}
use native.Mathlib.Omega.{arith}
use native.Mathlib.Nat.{pow-suc}
use aic_lib.Base.Bits.{bit_and_step, bit_or_step, bit_and-zero, bit_or-zero}

unfoldable pub bit : ℕ → ℕ → ℕ
bit zero a = a % 2
bit (suc i) a = bit i (a / 2)

pub bit-le : (i a : ℕ) → bit i a ≤ 1
unfolding bit
bit-le zero a = omega arith
bit-le (suc i) a = bit-le i (a / 2)

pub bit-and : (i a b : ℕ) → bit i (bit_and a b) ≡ min (bit i a) (bit i b)
unfolding bit
bit-and zero a b = omega (arith, bit_and_step a b)
bit-and (suc i) a b =
    let half : bit_and a b / 2 ≡ bit_and (a / 2) (b / 2) = omega (arith, bit_and_step a b) in
    ap (bit i) half ∙ bit-and i (a / 2) (b / 2)

pub bit-or : (i a b : ℕ) → bit i (bit_or a b) ≡ max (bit i a) (bit i b)
unfolding bit
bit-or zero a b = omega (arith, bit_or_step a b)
bit-or (suc i) a b =
    let half : bit_or a b / 2 ≡ bit_or (a / 2) (b / 2) = omega (arith, bit_or_step a b) in
    ap (bit i) half ∙ bit-or i (a / 2) (b / 2)

pub bit-zero : (i : ℕ) → bit i 0 ≡ 0
unfolding bit
bit-zero zero = refl
bit-zero (suc i) = bit-zero i

-- `~a` in a word of `w` bits.
pub bit-complement : (w i a : ℕ) → a < 2 ^ w → i < w → bit i (2 ^ w - 1 - a) ≡ 1 - bit i a
unfolding bit
bit-complement zero i a lt h = absurd (omega (arith, h))
bit-complement (suc w) zero a lt h = omega (arith, lt, pow-suc 2 w)
bit-complement (suc w) (suc i) a lt h =
    let p = pow-suc 2 w in
    let half : (2 ^ suc w - 1 - a) / 2 ≡ 2 ^ w - 1 - a / 2 = omega (arith, lt, p) in
    ap (bit i) half ∙ bit-complement w i (a / 2) (omega (arith, lt, p)) (omega (arith, h))

pub bit-power_self : (i : ℕ) → bit i (2 ^ i) ≡ 1
unfolding bit
bit-power_self zero = refl
bit-power_self (suc i) =
    let half : 2 ^ suc i / 2 ≡ 2 ^ i = omega (arith, pow-suc 2 i) in
    ap (bit i) half ∙ bit-power_self i

pub bit-power_other : (i j : ℕ) → (i ≡ j → ⊥) → bit i (2 ^ j) ≡ 0
unfolding bit
bit-power_other zero zero h = absurd (h refl)
bit-power_other zero (suc j) h = omega (arith, pow-suc 2 j)
bit-power_other (suc i) zero h = bit-zero i
bit-power_other (suc i) (suc j) h =
    let half : 2 ^ suc j / 2 ≡ 2 ^ j = omega (arith, pow-suc 2 j) in
    ap (bit i) half ∙ bit-power_other i j (λ e. h (ap suc e))

-- Numbers with the same digits are the same.
pub bit_ext : (w a b : ℕ) → a < 2 ^ w → b < 2 ^ w → ((i : ℕ) → i < w → bit i a ≡ bit i b) → a ≡ b
unfolding bit
bit_ext zero a b la lb h = omega (arith, la, lb)
bit_ext (suc w) a b la lb h =
    let p = pow-suc 2 w in
    let low = h 0 (omega arith) in
    let high =
      bit_ext w (a / 2) (b / 2) (omega (arith, la, p)) (omega (arith, lb, p))
        (λ i lt. h (suc i) (omega (arith, lt))) in
    omega (arith, low, high)

-- Masking with one digit gives zero just when the digit is zero.
pub and_power : (i a : ℕ) → bit_and a (2 ^ i) ≡ bit i a * 2 ^ i
unfolding bit
and_power zero a = omega (arith, bit_and_step a 1, bit_and-zero (a / 2))
and_power (suc i) a =
    let p = pow-suc 2 i in
    let half : 2 ^ suc i / 2 ≡ 2 ^ i = omega (arith, p) in
    let even : 2 ^ suc i % 2 ≡ 0 = omega (arith, p) in
    let step = bit_and_step a (2 ^ suc i) in
    let rest : bit_and (a / 2) (2 ^ suc i / 2) ≡ bit i (a / 2) * 2 ^ i =
      ap (bit_and (a / 2)) half ∙ and_power i (a / 2) in
    let twice : bit i (a / 2) * 2 ^ suc i ≡ 2 * (bit i (a / 2) * 2 ^ i) = rw p (omega arith) in
    omega (arith, step, even, rest, twice)

pub power_pos : (i : ℕ) → 0 < 2 ^ i
power_pos zero = omega arith
power_pos (suc i) = omega (arith, power_pos i, pow-suc 2 i)

-- A power below the width of the word fits in the word.
pub power-lt : (i w : ℕ) → i < w → 2 ^ i < 2 ^ w
power-lt i zero h = absurd (omega (arith, h))
power-lt zero (suc w) h = omega (arith, power_pos w, pow-suc 2 w)
power-lt (suc i) (suc w) h =
    omega (arith, power-lt i w (omega (arith, h)), pow-suc 2 w, pow-suc 2 i)

pub bit_and-lt : (w a b : ℕ) → b < 2 ^ w → bit_and a b < 2 ^ w
bit_and-lt zero a b h =
    let z : b ≡ 0 = omega (arith, h) in let e = ap (bit_and a) z in omega (arith, e, bit_and-zero a)
bit_and-lt (suc w) a b h =
    let p = pow-suc 2 w in
    omega (arith, p, bit_and_step a b, bit_and-lt w (a / 2) (b / 2) (omega (arith, h, p)))

pub bit_or-lt : (w a b : ℕ) → a < 2 ^ w → b < 2 ^ w → bit_or a b < 2 ^ w
bit_or-lt zero a b h h' =
    let z : b ≡ 0 = omega (arith, h') in
    let e = ap (bit_or a) z in omega (arith, e, bit_or-zero a, h)
bit_or-lt (suc w) a b h h' =
    let p = pow-suc 2 w in
    omega (
      arith,
      p,
      bit_or_step a b,
      bit_or-lt w (a / 2) (b / 2) (omega (arith, h, p)) (omega (arith, h', p)),
    )
