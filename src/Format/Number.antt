-- ===== src/Format/Number.antt =====
-- Numbers in vsnprintf.c: reading widths, writing digits, grouping them.
pub mod Numerals
pub mod Lengths
pub mod Decimal
use aic_lib.Base.{
  ℕ, zero, suc, ◌+◌, ◌-◌, ◌*◌, ◌/◌, ◌%◌, ◌^◌, Bool, true, false, ◌&&◌, ◌||◌, ◌==◌, ltb, leb,
  if◌then◌else◌, List, [], ◌∷◌, Option, none, some, get_or, set, take, reverse, length,
}

abbrev pub int_max : ℕ
int_max = 2 ^ 31 - 1

abbrev is_digit_char : ℕ → Bool
is_digit_char c = leb b'0' c && leb c b'9'

-- `while (format[*pos] >= '0' && format[*pos] <= '9') (*pos)++;`
skip_digits : List ℕ → List ℕ
skip_digits [] = []
skip_digits (c ∷ format) = if is_digit_char c then skip_digits format else c ∷ format

-- The loop of `parse_format_int`: the format from `*pos` on, with `has_value`.
parse_int_loop : List ℕ → ℕ → Bool → (ℕ × Bool) × List ℕ
parse_int_loop [] v has = ((v, has), [])
parse_int_loop (c ∷ format) v has =
    let next = parse_int_loop format (v * 10 + (c - b'0')) true in
    if is_digit_char c
    then (if ltb (int_max / 10) v
        then ((int_max, true), skip_digits (c ∷ format))
        else if ltb (int_max - (c - b'0')) (v * 10)
        then ((int_max, true), skip_digits format)
        else next)
    else ((v, has), c ∷ format)

-- The value and the format behind it.
unfoldable pub parse_format_int : List ℕ → ℕ → ℕ × List ℕ
unfolding parse_int_loop skip_digits
parse_format_int format default_val =
    let ((v, has), rest) = parse_int_loop format 0 false in (if has then v else default_val, rest)

-- An entry of the string of digits, from '0' to 'z' or 'Z'.
unfoldable pub digit_char : Bool → ℕ → ℕ
digit_char uppercase d =
    if ltb d 10 then b'0' + d else if uppercase then b'A' + (d - 10) else b'a' + (d - 10)

-- `while (value > 0 && i < sizeof(temp))`, with 64 - i rounds left: the array `temp`.
unfoldable pub digits_loop : ℕ → ℕ → ℕ → Bool → List ℕ
digits_loop zero value base uppercase = []
digits_loop (suc left) value base uppercase =
    let more = digits_loop left (value / base) base uppercase in
    if value == 0 then [] else digit_char uppercase (value % base) ∷ more

-- The array `temp`, which has room for 64 digits.
unfoldable pub temp_digits : ℕ → ℕ → Bool → List ℕ
unfolding digits_loop digit_char
temp_digits value base uppercase = digits_loop 64 value base uppercase

-- The bytes written to `buf`; their number is what the function returns (for `bufsize` > 0).
unfoldable pub uint_to_string : ℕ → ℕ → ℕ → Bool → List ℕ
uint_to_string bufsize value base uppercase =
    let b = if ltb base 2 || ltb 36 base then 10 else base in
    if value == 0
    then take bufsize (b'0' ∷ [])
    else reverse (take bufsize (temp_digits value b uppercase))

-- A write into an array; `none` is a write past its end.
abbrev pub put_char : List ℕ → ℕ → ℕ → Option (List ℕ)
put_char buf i c = if ltb i (length buf) then some (set buf i c) else none

-- The loop of `add_grouping`, which runs down with `i`.
group_loop : List ℕ → (len sep i j : ℕ) → Option (List ℕ)
group_loop buf len sep zero j = some buf
group_loop buf len sep (suc i) zero = some buf
group_loop buf len sep (suc i) (suc j) = elim (put_char buf j (get_or buf i 0)) [
  | none ↦ none
  | some buf' ↦ elim (ltb 0 i && ((len - i) % 3 == 0)) [
    | true ↦ elim (put_char buf' (j - 1) sep) [
      | none ↦ none
      | some buf'' ↦ group_loop buf'' len sep i (j - 1)
    ]
    | false ↦ group_loop buf' len sep i j
  ]
]

-- The array and the new length. `len - 1` wraps for a length of 0.
unfoldable pub add_grouping : List ℕ → ℕ → ℕ → Option (List ℕ × ℕ)
unfolding group_loop
add_grouping buf len sep =
    let groups = (len + 2 ^ 64 - 1) % 2 ^ 64 / 3 in
    if groups == 0 then some (buf, len) else elim (group_loop buf len sep len (len + groups)) [
      | none ↦ none
      | some buf' ↦ some (buf', len + groups)
    ]
