-- ===== src/Format/Meaning.antt =====
-- What the parts of a conversion specification mean, read off the bytes of the format: flags, width,
-- precision and length modifier, and the sign, mark and digits of a number.
use aic_lib.Base.{
  ℕ, ◌+◌, ◌-◌, ◌*◌, ◌%◌, ◌^◌, Bool, true, false, ◌&&◌, ◌==◌, ltb, leb, min, if◌then◌else◌, List, [],
  ◌∷◌, ◌++◌, Option, none, some, length, replicate,
}
use aic_lib.Format.Integer.{Flags}
use aic_lib.Format.Number.{uint_to_string}
use aic_lib.Format.Field.{
  Arg, word, text, real, Rest, Length, length_none, length_hh, length_h, length_l, length_ll,
  length_j, length_z, length_t, length_ldbl,
}

-- The byte stands in the list.
abbrev pub has : List ℕ → ℕ → Bool
has [] x = false
has (c ∷ cs) x = if c == x then true else has cs x

-- The bytes `-`, `+`, space, `0`, `#` and `'` at the front are flags.
abbrev pub flag_bytes : List ℕ
flag_bytes = b'-' ∷ b'+' ∷ b' ' ∷ b'0' ∷ b'#' ∷ 39 ∷ []

unfoldable pub flag_run : List ℕ → List ℕ
flag_run [] = []
flag_run (c ∷ format) = if has flag_bytes c then c ∷ flag_run format else []

unfoldable pub behind_flags : List ℕ → List ℕ
behind_flags [] = []
behind_flags (c ∷ format) = if has flag_bytes c then behind_flags format else c ∷ format

-- A flag is set by the occurrence of its byte, in any order and any number of times.
abbrev pub add_flags : Flags → List ℕ → Flags
add_flags fl run = record fl {
  left = if has run b'-' then true else fl.left;
  plus = if has run b'+' then true else fl.plus;
  space = if has run b' ' then true else fl.space;
  zero_pad = if has run b'0' then true else fl.zero_pad;
  hash = if has run b'#' then true else fl.hash;
  group = if has run 39 then true else fl.group;
}

abbrev pub given_flags : List ℕ → Flags
given_flags run = record {
  left = has run b'-';
  plus = has run b'+';
  space = has run b' ';
  zero_pad = has run b'0';
  hash = has run b'#';
  group = has run 39;
  uppercase = false;
  has_precision = false;
}

abbrev pub is_decimal : ℕ → Bool
is_decimal c = leb 48 c && leb c 57

-- The decimal digits at the front, what stands behind them, and their value.
unfoldable pub digit_run : List ℕ → List ℕ
digit_run [] = []
digit_run (c ∷ format) = if is_decimal c then c ∷ digit_run format else []

unfoldable pub behind_digits : List ℕ → List ℕ
behind_digits [] = []
behind_digits (c ∷ format) = if is_decimal c then behind_digits format else c ∷ format

unfoldable pub decimal : ℕ → List ℕ → ℕ
decimal acc [] = acc
decimal acc (c ∷ cs) = decimal (acc * 10 + (c - 48)) cs

module _ {D : Type 0} where
  -- The `int` behind a `*`: whether it is negative, and how large.
  abbrev pub star_arg : List (Arg D) → Option ((Bool × ℕ) × List (Arg D))
  star_arg (word w ∷ args) =
      if leb (2 ^ 31) (w % 2 ^ 32)
      then some ((true, 2 ^ 32 - w % 2 ^ 32), args)
      else some ((false, w % 2 ^ 32), args)
  star_arg (text t ∷ args) = none
  star_arg (real d ∷ args) = none
  star_arg [] = none

  -- A negative width is its size with the flag `-`; `INT_MIN` has no size. No width passes 100000.
  abbrev pub star_width : Flags → List ℕ → Option ((Bool × ℕ) × List (Arg D)) → Option (Rest D)
  star_width fl format none = none
  star_width fl format (some ((false, v), args)) =
      some (record { flags = fl; number = min v 100000; format = format; args = args })
  star_width fl format (some ((true, v), args)) =
      if v == 2147483648
      then none
      else some (record {
        flags = record fl { left = true };
        number = min v 100000;
        format = format;
        args = args;
      })

  unfoldable pub given_width : Flags → List ℕ → List (Arg D) → Option (Rest D)
  given_width fl [] args = some (record { flags = fl; number = 0; format = []; args = args })
  given_width fl (c ∷ format) args =
      if c == b'*'
      then star_width fl format (star_arg args)
      else some (record {
        flags = fl;
        number = min (decimal 0 (digit_run (c ∷ format))) 100000;
        format = behind_digits (c ∷ format);
        args = args;
      })

  -- A negative precision is none. No precision passes 1000.
  abbrev pub star_precision : Flags → List ℕ → Option ((Bool × ℕ) × List (Arg D)) → Option (Rest D)
  star_precision fl format none = none
  star_precision fl format (some ((false, v), args)) = some (record {
    flags = record fl { has_precision = true };
    number = min v 1000;
    format = format;
    args = args;
  })
  star_precision fl format (some ((true, v), args)) = some (record {
    flags = record fl { has_precision = false };
    number = 0;
    format = format;
    args = args;
  })

  abbrev pub counted_precision : Flags → List ℕ → List (Arg D) → Option (Rest D)
  counted_precision fl format args = some (record {
    flags = record fl { has_precision = true };
    number = min (decimal 0 (digit_run format)) 1000;
    format = behind_digits format;
    args = args;
  })

  abbrev pub behind_dot : Flags → List ℕ → List (Arg D) → Option (Rest D)
  behind_dot fl [] args = counted_precision fl [] args
  behind_dot fl (c ∷ format) args =
      if c == b'*'
      then star_precision fl format (star_arg args)
      else counted_precision fl (c ∷ format) args

  unfoldable pub given_precision : Flags → List ℕ → List (Arg D) → Option (Rest D)
  given_precision fl [] args = some (record { flags = fl; number = 0; format = []; args = args })
  given_precision fl (c ∷ format) args =
      if c == b'.'
      then behind_dot fl format args
      else some (record { flags = fl; number = 0; format = c ∷ format; args = args })

abbrev pub one_byte_modifier : ℕ → Length
one_byte_modifier c =
    if c == b't'
    then length_t
    else if c == b'z'
    then length_z
    else if c == b'j'
    then length_j
    else if c == b'L'
    then length_ldbl
    else if c == b'l'
    then length_l
    else length_h

-- A length modifier is the longest of `hh`, `h`, `ll`, `l`, `j`, `z`, `t` and `L` at the front.
unfoldable pub length_modifier : List ℕ → Length × List ℕ
length_modifier [] = (length_none, [])
length_modifier (c ∷ []) =
    if has (b'j' ∷ b'z' ∷ b't' ∷ b'h' ∷ b'l' ∷ b'L' ∷ []) c
    then (one_byte_modifier c, [])
    else (length_none, c ∷ [])
length_modifier (c ∷ d ∷ format) =
    if (c == b'h') && (d == b'h')
    then (length_hh, format)
    else if (c == b'l') && (d == b'l')
    then (length_ll, format)
    else if has (b'j' ∷ b'z' ∷ b't' ∷ b'h' ∷ b'l' ∷ b'L' ∷ []) c
    then (one_byte_modifier c, d ∷ format)
    else (length_none, c ∷ d ∷ format)

-- `char`, `short` and, without a modifier or with `L`, `int`; all other types have 64 bits.
abbrev pub type_bits : Length → ℕ
type_bits length_none = 32
type_bits length_ldbl = 32
type_bits length_hh = 8
type_bits length_h = 16
type_bits length_l = 64
type_bits length_ll = 64
type_bits length_j = 64
type_bits length_z = 64
type_bits length_t = 64

-- A signed argument of so many bits.
abbrev pub below_zero : ℕ → ℕ → Bool
below_zero b w = leb (2 ^ (b - 1)) (w % 2 ^ b)

abbrev pub absolute : ℕ → ℕ → ℕ
absolute b w = if below_zero b w then 2 ^ b - w % 2 ^ b else w % 2 ^ b

-- The sign: always for a negative number, by a flag for another one; an unsigned one has none.
abbrev pub sign_text : Flags → Bool → Bool → List ℕ
sign_text fl false negative = []
sign_text fl true true = b'-' ∷ []
sign_text fl true false = if fl.plus then b'+' ∷ [] else if fl.space then b' ' ∷ [] else []

-- `0x` and `0X`, `0b` and `0B`, `0`.
abbrev pub mark_text : ℕ → Bool → List ℕ
mark_text base upper =
    if base == 16
    then b'0' ∷ (if upper then b'X' else b'x') ∷ []
    else if base == 2
    then b'0' ∷ (if upper then b'B' else b'b') ∷ []
    else if base == 8
    then b'0' ∷ []
    else []

unfoldable pub front_text : ℕ → ℕ → Flags → Bool → Bool → List ℕ
front_text value base fl is_signed negative =
    sign_text fl is_signed negative
    ++ (if ltb 0 value && fl.hash then mark_text base fl.uppercase else [])

-- At least as many digits as the precision says, up to 128; none for a zero with precision 0.
unfoldable pub digits_text : ℕ → ℕ → Flags → ℕ → List ℕ
digits_text value base fl precision =
    let num =
      if fl.has_precision && (value + precision == 0)
      then []
      else uint_to_string 128 value base fl.uppercase in
    replicate (min precision 128 - length num) b'0' ++ num
