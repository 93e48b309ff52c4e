-- ===== src/Linker/Pages.antt =====
-- ld/dynlink.c, rounding to multiples of a power of two.
use aic_lib.Base.{
  ℕ, zero, suc, ◌+◌, ◌-◌, ◌*◌, ◌/◌, ◌%◌, ◌^◌, ◌≡◌, ◌<◌, ◌≤◌, arith, bit_and, bit_and_step,
  bit_and-ones, ones, ones-value, sym, ◌∙◌, ap,
}
use mathlib.Core.Path.{subst}
use native.Mathlib.Nat.{pow-suc}

-- `x & ~(a - 1)` on 64-bit words.
unfoldable pub align_down : ℕ → ℕ → ℕ
align_down x a = bit_and x (2 ^ 64 - 1 - (a + 2 ^ 64 - 1) % 2 ^ 64)

unfoldable pub align_up : ℕ → ℕ → ℕ
unfolding align_down
align_up x a = align_down ((x + a + 2 ^ 64 - 1) % 2 ^ 64) a

-- The multiple of `2 ^ k` at or below a number.
floor : ℕ → ℕ → ℕ
floor zero x = x
floor (suc k) x = 2 * floor k (x / 2)

floor-bounds : (k x : ℕ) → (floor k x ≤ x) × (x < floor k x + 2 ^ k)
unfolding floor
floor-bounds zero x = (omega arith, omega arith)
floor-bounds (suc k) x =
    let (below, above) = floor-bounds k (x / 2) in
    (omega (arith, below), omega (arith, above, pow-suc 2 k))

floor-multiple : (k x : ℕ) → (q : ℕ) × (floor k x ≡ 2 ^ k * q)
unfolding floor
floor-multiple zero x = (x, omega arith)
floor-multiple (suc k) x =
    let (q, e) = floor-multiple k (x / 2) in
    (q, omega (arith, e, ap (λ (t : ℕ). t * q) (pow-suc 2 k)))

double_mask : (x m f : ℕ) → bit_and (x / 2) m ≡ f → bit_and x (2 * m) ≡ 2 * f
double_mask x m f h =
    let half : 2 * m / 2 ≡ m = omega arith in
    omega (arith, bit_and_step x (2 * m), ap (λ (t : ℕ). bit_and (x / 2) t) half, h)

bit_and-mask : (k j n x : ℕ) → n ≡ k + j → x < 2 ^ n → bit_and x (2 ^ k * ones j) ≡ floor k x
unfolding floor
bit_and-mask zero j n x e lt =
    let same : n ≡ j = omega (arith, e) in
    let all = bit_and-ones j x (subst (λ (t : ℕ). x < 2 ^ t) same lt) in
    let whole : 2 ^ 0 * ones j ≡ ones j = omega arith in rw whole all
bit_and-mask (suc k) j zero x e lt = absurd (omega (arith, e))
bit_and-mask (suc k) j (suc n) x e lt =
    let half = bit_and-mask k j n (x / 2) (omega (arith, e)) (omega (arith, lt, pow-suc 2 n)) in
    let mask : 2 ^ suc k * ones j ≡ 2 * (2 ^ k * ones j) =
      omega (arith, ap (λ (t : ℕ). t * ones j) (pow-suc 2 k)) in
    rw mask (double_mask x (2 ^ k * ones j) (floor k (x / 2)) half)

mask_value : (k j n : ℕ) → n ≡ k + j → 2 ^ k * ones j + 2 ^ k ≡ 2 ^ n
mask_value zero j n e = let same : n ≡ j = omega (arith, e) in rw same (omega (arith, ones-value j))
mask_value (suc k) j zero e = absurd (omega (arith, e))
mask_value (suc k) j (suc n) e = omega (
  arith,
  mask_value k j n (omega (arith, e)),
  pow-suc 2 k,
  pow-suc 2 n,
  ap (λ (t : ℕ). t * ones j) (pow-suc 2 k),
)

pub pow_pos : (k : ℕ) → 0 < 2 ^ k
pow_pos zero = omega arith
pow_pos (suc k) = omega (arith, pow_pos k, pow-suc 2 k)

complement : (a b : ℕ) → b + a ≡ 2 ^ 64 → 0 < a → 2 ^ 64 - 1 - (a + 2 ^ 64 - 1) % 2 ^ 64 ≡ b
complement a b e lt = omega (arith, e, lt)

align_down-floor : (k j x : ℕ) → k + j ≡ 64 → x < 2 ^ 64 → align_down x (2 ^ k) ≡ floor k x
unfolding align_down
align_down-floor k j x e lt =
    let value = mask_value k j 64 (sym e) in
    let positive = pow_pos k in
    let mask : 2 ^ 64 - 1 - (2 ^ k + 2 ^ 64 - 1) % 2 ^ 64 ≡ 2 ^ k * ones j =
      complement (2 ^ k) (2 ^ k * ones j) value positive in
    rw mask (bit_and-mask k j 64 x (sym e) lt)

wrap : (x a : ℕ) → x + a ≤ 2 ^ 64 → 0 < a → (x + a + 2 ^ 64 - 1) % 2 ^ 64 ≡ x + a - 1
wrap x a le lt = omega (arith, le, lt)

align_up-floor :
    (k j x : ℕ) → k + j ≡ 64 → x + 2 ^ k ≤ 2 ^ 64 → align_up x (2 ^ k) ≡ floor k (x + 2 ^ k - 1)
unfolding align_up
align_up-floor k j x e le =
    let positive = pow_pos k in
    let sum : (x + 2 ^ k + 2 ^ 64 - 1) % 2 ^ 64 ≡ x + 2 ^ k - 1 = wrap x (2 ^ k) le positive in
    rw sum (align_down-floor k j (x + 2 ^ k - 1) e (omega (arith, le, positive)))

-- `align_down` by a power of two, which a 64-bit word can hold, gives the greatest multiple of it
-- that is not above the address.
pub align_down-greatest :
    (k j x : ℕ)
    → k + j ≡ 64
    → x < 2 ^ 64
    → (q : ℕ) × (align_down x (2 ^ k) ≡ 2 ^ k * q) × (2 ^ k * q ≤ x) × (x < 2 ^ k * q + 2 ^ k)
align_down-greatest k j x e lt =
    let (q, m) = floor-multiple k x in
    let (below, above) = floor-bounds k x in
    (q, align_down-floor k j x e lt ∙ m, omega (arith, m, below), omega (arith, m, above))

-- `align_up` by a power of two gives the least multiple of it that is not below the address, where
-- rounding up does not overflow.
pub align_up-least :
    (k j x : ℕ)
    → k + j ≡ 64
    → x + 2 ^ k ≤ 2 ^ 64
    → (q : ℕ) × (align_up x (2 ^ k) ≡ 2 ^ k * q) × (x ≤ 2 ^ k * q) × (2 ^ k * q < x + 2 ^ k)
align_up-least k j x e le =
    let (q, m) = floor-multiple k (x + 2 ^ k - 1) in
    let (below, above) = floor-bounds k (x + 2 ^ k - 1) in
    let positive = pow_pos k in
    (
      q,
      align_up-floor k j x e le ∙ m,
      omega (arith, m, above, positive),
      omega (arith, m, below, positive),
    )
