-- ===== src/Convert.antt =====
-- src/string/strtol.c and src/string/strtoll.c: text to numbers. The
-- conversions are generic in `half`: `long` has the values from -half to half - 1, where half is
-- 2 ^ 63 on the 64-bit targets and for `long long`, and 2 ^ 31 for `long` on x86.
pub mod Digits
pub mod Accumulate
pub mod Strtol
pub mod Itoa
use aic_lib.Base.{
  ℕ, zero, suc, ◌+◌, ◌-◌, ◌*◌, ◌/◌, ◌%◌, ◌^◌, Bool, true, false, ◌&&◌, ◌||◌, ◌==◌, ltb, leb,
  if◌then◌else◌, Option, none, some, List, [], ◌∷◌, ◌++◌, get_or, set, length, reverse,
}
use aic_lib.Base.Int.{ℤ, pos, negsuc, neg_ℕ}
use aic_lib.Memory.{Ptr, Cmd, pure, stuck, ◌>>=◌, ◌>>◌, load, store}
use aic_lib.Ctype.{isspace, isdigit, isalpha, isupper}

-- `do { c = *s++; } while (isspace((unsigned char)c));` with `c` and `s` behind it.
pub skip_spaces : ℕ → Ptr → Cmd (ℕ × Ptr)
skip_spaces zero s = stuck
skip_spaces (suc k) s = do c ← load s; if isspace c then skip_spaces k (s + 1) else pure (c, s + 1)

-- The digit that a byte stands for; a byte that is no digit or letter leaves the loop.
unfoldable pub digit_value : ℕ → Option ℕ
digit_value c =
    if isdigit c
    then some (c - b'0')
    else if isalpha c
    then some (c - (if isupper c then b'A' - 10 else b'a' - 10))
    else none

-- The variable `any`: 0, 1 and -1.
pub data Seen : Type 0 where
  nothing digits overflow : Seen

abbrev overflowed : Seen → Bool
overflowed overflow = true
overflowed nothing = false
overflowed digits = false

-- One digit: `acc` is unsigned and wraps at `2 * half`.
unfoldable pub add_digit : (half base cutoff cutlim : ℕ) → Seen × ℕ → ℕ → Seen × ℕ
add_digit half base cutoff cutlim (any, acc) d =
    if overflowed any || (ltb cutoff acc || ((acc == cutoff) && ltb cutlim d))
    then (overflow, acc)
    else (digits, (acc * base + d) % (2 * half))

-- `for (acc = 0, any = 0;; c = *s++)`
pub digit_loop : (half base cutoff cutlim : ℕ) → ℕ → Seen × ℕ → ℕ → Ptr → Cmd ((Seen × ℕ) × Ptr)
digit_loop half base cutoff cutlim zero st c s = stuck
digit_loop half base cutoff cutlim (suc k) st c s = elim (digit_value c) [
  | none ↦ pure (st, s)
  | some d ↦ if leb base d then pure (st, s) else do
    c' ← load s
    digit_loop half base cutoff cutlim k (add_digit half base cutoff cutlim st d) c' (s + 1)
]

-- What `strtol` returns, where `*endptr` points, and whether it set `errno` to `ERANGE`.
pub record Converted : Type 0 where
  pub value : ℤ
  pub end : Ptr
  pub range_error : Bool

-- An optional sign.
pub read_sign : ℕ → Ptr → Cmd (Bool × ℕ × Ptr)
read_sign c s =
    if c == b'-'
    then (do c' ← load s; pure (true, c', s + 1))
    else if c == b'+'
    then (do c' ← load s; pure (false, c', s + 1))
    else pure (false, c, s)

-- The prefix of base 16, and the base that is chosen for base 0.
pub read_base : ℕ → ℕ → Ptr → Cmd (ℕ × ℕ × Ptr)
read_base base c s =
    if ((base == 0) || (base == 16)) && (c == b'0')
    then (do
      x ← load s
      if (x == b'x') || (x == b'X')
          then (do c' ← load (s + 1); pure (16, c', s + 2))
          else pure ((if base == 0 then 8 else base), c, s))
    else pure ((if base == 0 then 10 else base), c, s)

-- A word of `2 * half` values, read as signed.
abbrev pub signed_word : ℕ → ℕ → ℤ
signed_word half w = if ltb w half then pos w else neg_ℕ (2 * half - w)

-- The last part of `strtol`: the sign is applied to the word `acc`, which is read as signed.
unfoldable pub finish : ℕ → Bool → Ptr → Seen × ℕ → Ptr → Converted
finish half neg nptr (overflow, acc) s = record {
  value = if neg then neg_ℕ half else pos (half - 1);
  end = s - 1;
  range_error = true;
}
finish half neg nptr (digits, acc) s = record {
  value = signed_word half (if neg then (2 * half - acc) % (2 * half) else acc);
  end = s - 1;
  range_error = false;
}
finish half neg nptr (nothing, acc) s = record { value = pos 0; end = nptr; range_error = false }

unfoldable pub strtol : (half : ℕ) → ℕ → Ptr → ℕ → Cmd Converted
strtol half k nptr base = do
  (c₀, s₀) ← skip_spaces k nptr
  (neg, c₁, s₁) ← read_sign c₀ s₀
  (b, c₂, s₂) ← read_base base c₁ s₁
  let top = if neg then half else half - 1
  (st, s₃) ← digit_loop half b (top / b) (top % b) k (nothing, 0) c₂ s₂
  pure (finish half neg nptr st s₃)

-- `long long` has 64 bits on every target; the text of the function is that of `strtol`.
unfoldable pub strtoll : ℕ → Ptr → ℕ → Cmd Converted
strtoll k nptr base = strtol (2 ^ 63) k nptr base
