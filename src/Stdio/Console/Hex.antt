-- ===== src/Stdio/Console/Hex.antt =====
-- What print_hex writes.
use aic_lib.Base.{ℕ, zero, suc, ◌/◌, ◌^◌, ◌≡◌, ◌<◌, refl, ap, ◌∙◌, arith, [], ◌∷◌, replicate}
use native.Mathlib.Nat.{pow-suc, div-div-eq-div-mul}
use aic_lib.Stdio.Console.{hex_digit, hex_loop, print_hex}

shift : ℕ → ℕ → ℕ
shift zero val = val
shift (suc n) val = shift n (val / 16)

print_hex-shift : (val : ℕ) → print_hex val ≡ b'0' ∷ b'x' ∷ hex_loop 6 (shift 10 val) []
unfolding print_hex hex_loop shift
print_hex-shift val = refl

shift-div : (n val : ℕ) → shift n val ≡ val / 16 ^ n
unfolding shift
shift-div zero val = omega arith
shift-div (suc n) val =
    let p = pow-suc 16 n in
    shift-div n (val / 16)
    ∙ (div-div-eq-div-mul val 16 (16 ^ n) ∙ ap (λ d. val / d) (omega (arith, p)))

-- `print_hex` writes eight bytes: the prefix and the six hexadecimal digits of the number divided
-- by 2 ^ 40, the lowest last; for every number below 2 ^ 40 these are `0x000000`.
pub print_hex-high :
    (val : ℕ)
    → (print_hex val ≡ b'0' ∷ b'x' ∷ hex_loop 6 (val / 2 ^ 40) [])
      × (val < 2 ^ 40 → print_hex val ≡ b'0' ∷ b'x' ∷ replicate 6 b'0')
unfolding hex_loop hex_digit
print_hex-high val =
    let high = print_hex-shift val ∙ ap (λ v. b'0' ∷ b'x' ∷ hex_loop 6 v []) (shift-div 10 val) in
    (
      high,
      (λ lt.
          let none_left : val / 2 ^ 40 ≡ 0 = omega (arith, lt) in
          high ∙ ap (λ v. b'0' ∷ b'x' ∷ hex_loop 6 v []) none_left),
    )
