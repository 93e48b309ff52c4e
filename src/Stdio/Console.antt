-- ===== src/Stdio/Console.antt =====
-- src/stdio/getchar.c, src/stdio/puts.c, src/stdio/print_str.c, src/stdio/print_hex.c, and fputs of
-- src/stdio/putchar.c. The kernel's calls are parameters. A string is the list of its bytes.
pub mod Hex
pub mod Chars
use aic_lib.Base.{
  ℕ, zero, suc, ◌+◌, ◌-◌, ◌/◌, ◌%◌, Bool, true, false, ◌==◌, leb, ltb, if◌then◌else◌, List, [], ◌∷◌,
  ◌++◌, Option, none, some, take, drop, length, get_or,
}
use aic_lib.Base.Int.{ℤ, pos, negsuc, ltb_ℤ}

abbrev pub in_buf_size : ℕ
in_buf_size = 1024

-- The buffer of `getchar`, and the kernel's state.
pub record Input (W : Type 0) : Type 0 where
  pub in_buf : List ℕ
  pub in_ptr : ℕ
  pub in_len : ℕ
  pub world : W

module _ {W : Type 0} (pal_read : ℤ → ℕ → W → ℤ × List ℕ × W) where
  next_char : Input W → ℤ × Input W
  next_char s = (pos (get_or s.in_buf s.in_ptr 0 % 256), record s { in_ptr = s.in_ptr + 1 })

  -- The kernel's answer to a read: a count or an error, and the bytes.
  received : Input W → ℤ × List ℕ × W → ℤ × Input W
  unfolding next_char
  received s (negsuc n, bytes, w) = (negsuc 0, record s { world = w })
  received s (pos zero, bytes, w) = (negsuc 0, record s { world = w })
  received s (pos (suc n), bytes, w) = next_char (record {
    in_buf = bytes ++ drop (length bytes) s.in_buf;
    in_ptr = 0;
    in_len = suc n;
    world = w;
  })

  unfoldable pub getchar : Input W → ℤ × Input W
  unfolding next_char received
  getchar s =
      if leb s.in_len s.in_ptr
      then received s (pal_read (pos 0) in_buf_size s.world)
      else next_char s

module _ {W : Type 0} (pal_write : ℤ → List ℕ → W → ℤ × W) where
  -- `none` stands for `NULL`; what the kernel answers is left out.
  unfoldable pub puts : Option (List ℕ) → W → ℤ × W
  puts none w = (negsuc 0, w)
  puts (some s) w =
      let w1 = (pal_write (pos 1) s w).1 in (pos 0, (pal_write (pos 1) (10 ∷ []) w1).1)

  unfoldable pub print_str : List ℕ → W → W
  print_str s w = (pal_write (pos 1) s w).1

  -- A stream is its descriptor, none for `NULL`; the result is none for `EOF`.
  unfoldable pub fputs : List ℕ → Option ℤ → W → Option ℕ × W
  fputs s stream w =
      let fd : ℤ = elim stream [ none ↦ pos 1 | some d ↦ d ] in
      if length s == 0
      then (some 0, w)
      else (if ltb_ℤ (pal_write fd s w).0 (pos 0) then none else some 0, (pal_write fd s w).1)

hex_digit : ℕ → ℕ
hex_digit nibble = if ltb nibble 10 then nibble + b'0' else nibble - 10 + b'a'

-- `for (int i = 17; i >= 2; i--)`: the digits in front of those that were written.
unfoldable pub hex_loop : ℕ → ℕ → List ℕ → List ℕ
unfolding hex_digit
hex_loop zero val buf = buf
hex_loop (suc n) val buf = hex_loop n (val / 16) (hex_digit (val % 16) ∷ buf)

-- `sizeof((long)buf)`
abbrev pub size_of_long : ℕ
size_of_long = 8

-- The bytes that are written.
unfoldable pub print_hex : ℕ → List ℕ
unfolding hex_loop
print_hex val = take size_of_long (b'0' ∷ b'x' ∷ (hex_loop 16 val [] ++ (0 ∷ [])))
