-- ===== src/Base/Bits.antt =====
-- `|` and `&` at variables: one equation for the lowest digit, and the cases the code uses.
use Prim.Native.Nat.{
  ℕ, zero, suc, ◌+◌, ◌*◌, ◌/◌, ◌%◌, ◌^◌, ◌≤◌, ◌<◌, min, max, bit_and, bit_or, digits, bitwise,
  bit_and-bitwise, bit_or-bitwise,
}
use mathlib.Core.Path.{◌≡◌, refl}
use native.Mathlib.Omega.{arith}
use native.Mathlib.Nat.{le_refl, pow-suc}

-- Any fuel that covers the number gives the same digits.
module _ (low : ℕ → ℕ) (join : ℕ → ℕ → ℕ) where
  fuel_free : (x y k l : ℕ) → x ≤ l → x ≤ k → digits low join l x y ≡ digits low join k x y
  fuel_free zero y (suc k) (suc l) hl hk = refl
  fuel_free zero y (suc k) zero hl hk = refl
  fuel_free zero y zero (suc l) hl hk = refl
  fuel_free zero y zero zero hl hk = refl
  fuel_free (suc x) y zero l hl hk = absurd (omega arith)
  fuel_free (suc x) y (suc k) zero hl hk = absurd (omega arith)
  fuel_free (suc x) y (suc k) (suc l) hl hk =
      let halves = fuel_free (suc x / 2) (y / 2) k l (omega arith) (omega arith) in rw halves refl

  lowest :
      (x y : ℕ)
      → bitwise low join (suc x) y
        ≡ bitwise low join (suc x / 2) (y / 2) * 2 + join (suc x % 2) (y % 2)
  lowest x y =
      let same = fuel_free (suc x / 2) (y / 2) x (suc x / 2) (le_refl _) (omega arith) in
      omega (arith, same)

pub bit_and_step : (x y : ℕ) → bit_and x y ≡ min (x % 2) (y % 2) + 2 * bit_and (x / 2) (y / 2)
bit_and_step (suc x) y = simp bit_and-bitwise (omega (arith, lowest (λ _. 0) min x y))
bit_and_step zero y = simp bit_and-bitwise (omega arith)

pub bit_or_step : (x y : ℕ) → bit_or x y ≡ max (x % 2) (y % 2) + 2 * bit_or (x / 2) (y / 2)
bit_or_step (suc x) y = simp bit_or-bitwise (omega (arith, lowest (λ v. v) max x y))
bit_or_step zero y = simp bit_or-bitwise (omega arith)

bit_or-zero_below : (n a : ℕ) → a ≤ n → bit_or a 0 ≡ a
bit_or-zero_below n zero h = simp bit_or-bitwise (omega arith)
bit_or-zero_below zero (suc a) h = absurd (omega arith)
bit_or-zero_below (suc n) (suc a) h =
    omega (arith, bit_or_step (suc a) 0, bit_or-zero_below n (suc a / 2) (omega arith))

bit_and-zero_below : (n a : ℕ) → a ≤ n → bit_and a 0 ≡ 0
bit_and-zero_below n zero h = simp bit_and-bitwise (omega arith)
bit_and-zero_below zero (suc a) h = absurd (omega arith)
bit_and-zero_below (suc n) (suc a) h =
    omega (arith, bit_and_step (suc a) 0, bit_and-zero_below n (suc a / 2) (omega arith))

pub bit_or-zero : (a : ℕ) → bit_or a 0 ≡ a
bit_or-zero a = bit_or-zero_below a a (omega arith)

pub bit_and-zero : (a : ℕ) → bit_and a 0 ≡ 0
bit_and-zero a = bit_and-zero_below a a (omega arith)

-- A word whose `k` digits are all ones, and its use as a mask.
pub ones : ℕ → ℕ
ones zero = 0
ones (suc k) = ones k * 2 + 1

pub ones-value : (k : ℕ) → ones k + 1 ≡ 2 ^ k
unfolding ones
ones-value zero = omega arith
ones-value (suc k) = omega (arith, ones-value k, pow-suc 2 k)

pub bit_and-ones : (k a : ℕ) → a < 2 ^ k → bit_and a (ones k) ≡ a
unfolding ones
bit_and-ones zero a lt = ground (arith, bit_and-zero a)
bit_and-ones (suc k) a lt = ground (
  arith,
  bit_and_step a (ones k * 2 + 1),
  pow-suc 2 k,
  bit_and-ones k (a / 2) (omega (arith, pow-suc 2 k)),
)

-- Setting bit 5, from the lowest bit on.
or_1 : (a : ℕ) → bit_or a 1 ≡ a / 2 * 2 + 1
or_1 a = omega (arith, bit_or_step a 1, bit_or-zero (a / 2))

or_2 : (a : ℕ) → bit_or a 2 ≡ a / 4 * 4 + 2 + a % 2
or_2 a = omega (arith, bit_or_step a 2, or_1 (a / 2))

or_4 : (a : ℕ) → bit_or a 4 ≡ a / 8 * 8 + 4 + a % 4
or_4 a = omega (arith, bit_or_step a 4, or_2 (a / 2))

or_8 : (a : ℕ) → bit_or a 8 ≡ a / 16 * 16 + 8 + a % 8
or_8 a = omega (arith, bit_or_step a 8, or_4 (a / 2))

or_16 : (a : ℕ) → bit_or a 16 ≡ a / 32 * 32 + 16 + a % 16
or_16 a = omega (arith, bit_or_step a 16, or_8 (a / 2))

pub bit_or-32 : (a : ℕ) → bit_or a 32 ≡ a / 64 * 64 + 32 + a % 32
bit_or-32 a = omega (arith, bit_or_step a 32, or_16 (a / 2))

-- Clearing bit 5 of a 32-bit word, from the lowest bit on.
clear_1 : (a : ℕ) → a < 2 ^ 27 → bit_and a 0x07ff_fffe ≡ a / 2 * 2
unfolding ones
clear_1 a lt = omega (arith, bit_and_step a 0x07ff_fffe, bit_and-ones 26 (a / 2) (omega arith))

clear_2 : (a : ℕ) → a < 2 ^ 28 → bit_and a 0x0fff_fffd ≡ a / 4 * 4 + a % 2
clear_2 a lt = omega (arith, bit_and_step a 0x0fff_fffd, clear_1 (a / 2) (omega arith))

clear_4 : (a : ℕ) → a < 2 ^ 29 → bit_and a 0x1fff_fffb ≡ a / 8 * 8 + a % 4
clear_4 a lt = omega (arith, bit_and_step a 0x1fff_fffb, clear_2 (a / 2) (omega arith))

clear_8 : (a : ℕ) → a < 2 ^ 30 → bit_and a 0x3fff_fff7 ≡ a / 16 * 16 + a % 8
clear_8 a lt = omega (arith, bit_and_step a 0x3fff_fff7, clear_4 (a / 2) (omega arith))

clear_16 : (a : ℕ) → a < 2 ^ 31 → bit_and a 0x7fff_ffef ≡ a / 32 * 32 + a % 16
clear_16 a lt = omega (arith, bit_and_step a 0x7fff_ffef, clear_8 (a / 2) (omega arith))

pub bit_and-not_32 : (a : ℕ) → a < 2 ^ 32 → bit_and a 0xffff_ffdf ≡ a / 64 * 64 + a % 32
bit_and-not_32 a lt = omega (arith, bit_and_step a 0xffff_ffdf, clear_16 (a / 2) (omega arith))

-- The low seven bits.
low_1 : (a : ℕ) → bit_and a 1 ≡ a % 2
low_1 a = omega (arith, bit_and_step a 1, bit_and-zero (a / 2))

low_3 : (a : ℕ) → bit_and a 3 ≡ a % 4
low_3 a = omega (arith, bit_and_step a 3, low_1 (a / 2))

low_7 : (a : ℕ) → bit_and a 7 ≡ a % 8
low_7 a = omega (arith, bit_and_step a 7, low_3 (a / 2))

low_15 : (a : ℕ) → bit_and a 15 ≡ a % 16
low_15 a = omega (arith, bit_and_step a 15, low_7 (a / 2))

low_31 : (a : ℕ) → bit_and a 31 ≡ a % 32
low_31 a = omega (arith, bit_and_step a 31, low_15 (a / 2))

low_63 : (a : ℕ) → bit_and a 63 ≡ a % 64
low_63 a = omega (arith, bit_and_step a 63, low_31 (a / 2))

pub bit_and-127 : (a : ℕ) → bit_and a 127 ≡ a % 128
bit_and-127 a = omega (arith, bit_and_step a 127, low_63 (a / 2))
