-- ===== src/Convert/Itoa.antt =====
-- src/string/itoa.c: a `long` in the digits of a base. The digits are stored from the last one on
-- and then reversed in place. `base` is not negative.
pub mod Reverse
pub mod Written
pub mod Lower
pub mod RoundTrip
use aic_lib.Base.{
  ℕ, zero, suc, ◌+◌, ◌-◌, ◌*◌, ◌/◌, ◌%◌, Bool, true, false, ◌==◌, ltb, if◌then◌else◌, none, some,
  List, [], ◌∷◌, get_elem?,
}
use aic_lib.Base.Int.{ℤ, pos, negsuc}
use aic_lib.Memory.{Ptr, Cmd, pure, stuck, fault, ◌>>=◌, ◌>>◌, load, store}

-- "0123456789abcdef" and its terminator.
abbrev digits : List ℕ
digits =
    b'0' ∷ b'1' ∷ b'2' ∷ b'3' ∷ b'4' ∷ b'5' ∷ b'6' ∷ b'7' ∷ b'8' ∷ b'9' ∷ b'a' ∷ b'b' ∷ b'c' ∷ b'd'
    ∷ b'e' ∷ b'f' ∷ 0 ∷ []

-- `digits[i]`, a fault out of bounds.
unfoldable pub digit_at : ℕ → Cmd ℕ
digit_at i m = elim (get_elem? digits i) [ none ↦ fault | some c ↦ pure c m ]

-- `while (uval > 0)`: where the digits end. A division by zero faults.
pub itoa_loop : ℕ → ℕ → ℕ → Ptr → Cmd Ptr
itoa_loop zero uval base p = stuck
itoa_loop (suc k) uval base p =
    if uval == 0
    then pure p
    else if base == 0
    then (λ m. fault)
    else do c ← digit_at (uval % base); store p c; itoa_loop k (uval / base) base (p + 1)

-- `while (p1 < p2)`
pub reverse_loop : ℕ → Ptr → Ptr → Cmd (Unit {0})
reverse_loop zero p1 p2 = stuck
reverse_loop (suc k) p1 p2 =
    if ltb p1 p2
    then (do tmp ← load p1; c ← load p2; store p1 c; store p2 tmp; reverse_loop k (p1 + 1) (p2 - 1))
    else pure tt

-- The sign that is written and the number behind it, an `unsigned long`.
unfoldable pub split_sign : ℕ → ℤ → ℕ → Bool × ℕ
split_sign half (pos n) base = (false, n)
split_sign half (negsuc n) base = if base == 10 then (true, n + 1) else (false, 2 * half - suc n)

-- The digits of the number from `p1` on, with the terminator.
unfoldable pub write_digits : ℕ → ℕ → Ptr → Ptr → ℕ → Cmd Ptr
unfolding itoa_loop reverse_loop
write_digits k uval buf p1 base =
    if uval == 0
    then (do store p1 b'0'; store (p1 + 1) 0; pure buf)
    else (do p ← itoa_loop k uval base p1; store p 0; reverse_loop k p1 (p - 1); pure buf)

unfoldable pub write_number : ℕ → Bool × ℕ → Ptr → ℕ → Cmd Ptr
write_number k (true, uval) buf base = store buf b'-' >> write_digits k uval buf (buf + 1) base
write_number k (false, uval) buf base = write_digits k uval buf buf base

unfoldable pub itoa : ℕ → ℕ → ℤ → Ptr → ℕ → Cmd Ptr
itoa half k val buf base = write_number k (split_sign half val base) buf base
