-- ===== src/Format/Field.antt =====
-- A conversion specification of vsnprintf.c: flags, width, precision and length modifier. The format
-- is a list of bytes without its terminator, and each function returns what is left of it. The
-- variable arguments are a list; taking one that is not there, or of another kind, is `none`.
use aic_lib.Base.{
  ℕ, ◌-◌, ◌%◌, ◌^◌, Bool, true, false, ◌&&◌, ◌==◌, ltb, min, if◌then◌else◌, List, [], ◌∷◌, Option,
  none, some,
}
use aic_lib.Format.Number.{parse_format_int}
use aic_lib.Format.Integer.{Flags}

-- An argument: a machine word, the text behind a `char *` (`none` for `NULL`), or a double.
pub data Arg (D : Type 0) : Type 0 where
  word : ℕ → Arg D
  text : Option (List ℕ) → Arg D
  real : D → Arg D

abbrev pub no_flags : Flags
no_flags = record {
  left = false;
  plus = false;
  space = false;
  zero_pad = false;
  hash = false;
  group = false;
  uppercase = false;
  has_precision = false;
}

-- One flag character, if it is one.
abbrev pub flag_of : Flags → ℕ → Option Flags
flag_of fl c =
    if c == b'-'
    then some (record fl { left = true })
    else if c == b'+'
    then some (record fl { plus = true })
    else if c == b' '
    then some (record fl { space = true })
    else if c == b'0'
    then some (record fl { zero_pad = true })
    else if c == b'#'
    then some (record fl { hash = true })
    else if c == 39
    then some (record fl { group = true })
    else none

-- `while (parsing_flags)`
unfoldable pub parse_flags : List ℕ → Flags → Flags × List ℕ
parse_flags [] fl = (fl, [])
parse_flags (c ∷ format) fl = elim (flag_of fl c) [
  | none ↦ (fl, c ∷ format)
  | some fl' ↦ parse_flags format fl'
]

-- `va_arg(ap, int)`, as a sign and a magnitude.
abbrev pub int_arg : {D : Type 0} → List (Arg D) → Option ((Bool × ℕ) × List (Arg D))
int_arg (word w ∷ args) =
    some (
      (if ltb (w % 2 ^ 32) (2 ^ 31) then (false, w % 2 ^ 32) else (true, 2 ^ 32 - w % 2 ^ 32)),
      args,
    )
int_arg [] = none
int_arg (text t ∷ args) = none
int_arg (real d ∷ args) = none

abbrev pub max_width : ℕ
max_width = 100000

abbrev pub max_precision : ℕ
max_precision = 1000

-- What a part of the specification leaves: flags, a number, the format and the arguments.
pub record Rest (D : Type 0) : Type 0 where
  pub flags : Flags
  pub number : ℕ
  pub format : List ℕ
  pub args : List (Arg D)

abbrev literal_width : {D : Type 0} → Flags → List ℕ → List (Arg D) → Option (Rest D)
literal_width fl format args =
    let (v, format') = parse_format_int format 0 in
    some (record { flags = fl; number = min v max_width; format = format'; args = args })

-- A width that is not given is 0; a negative argument sets the flag `-`, and `INT_MIN`, whose
-- negation overflows, is `none`. The cap of `VSNPRINTF_MAX_WIDTH` is the `min`.
unfoldable pub parse_width : {D : Type 0} → Flags → List ℕ → List (Arg D) → Option (Rest D)
parse_width fl [] args = literal_width fl [] args
parse_width fl (c ∷ format) args =
    if c == b'*'
    then elim (int_arg args) [
      | none ↦ none
      | some ((neg, v), args') ↦
          if neg && (v == 2 ^ 31)
          then none
          else some (record {
            flags = if neg then record fl { left = true } else fl;
            number = min v max_width;
            format = format;
            args = args';
          })
    ]
    else literal_width fl (c ∷ format) args

abbrev literal_precision : {D : Type 0} → Flags → List ℕ → List (Arg D) → Option (Rest D)
literal_precision fl format args =
    let (v, format') = parse_format_int format 0 in
    some (record {
      flags = record fl { has_precision = true };
      number = min v max_precision;
      format = format';
      args = args;
    })

abbrev pub dot_precision : {D : Type 0} → Flags → List ℕ → List (Arg D) → Option (Rest D)
dot_precision fl [] args = literal_precision fl [] args
dot_precision fl (c ∷ format) args =
    if c == b'*'
    then elim (int_arg args) [
      | none ↦ none
      | some ((neg, v), args') ↦ some (record {
        flags = record fl { has_precision = if neg then false else true };
        number = if neg then 0 else min v max_precision;
        format = format;
        args = args';
      })
    ]
    else literal_precision fl (c ∷ format) args

-- A precision that is not given, or is a negative argument, is 0 without its flag.
unfoldable pub parse_precision : {D : Type 0} → Flags → List ℕ → List (Arg D) → Option (Rest D)
parse_precision fl [] args = some (record { flags = fl; number = 0; format = []; args = args })
parse_precision fl (c ∷ format) args =
    if c == b'.'
    then dot_precision fl format args
    else some (record { flags = fl; number = 0; format = c ∷ format; args = args })

-- `length_modifier_t`
pub data Length : Type 0 where
  length_none length_hh length_h length_l length_ll length_j length_z length_t length_ldbl : Length

abbrev second : List ℕ → ℕ → Length → Length → Length × List ℕ
second [] c one two = (one, [])
second (d ∷ format) c one two = if d == c then (two, format) else (one, d ∷ format)

unfoldable pub parse_length : List ℕ → Length × List ℕ
parse_length [] = (length_none, [])
parse_length (c ∷ format) =
    if c == b'h'
    then second format b'h' length_h length_hh
    else if c == b'l'
    then second format b'l' length_l length_ll
    else if c == b'j'
    then (length_j, format)
    else if c == b'z'
    then (length_z, format)
    else if c == b't'
    then (length_t, format)
    else if c == b'L'
    then (length_ldbl, format)
    else (length_none, c ∷ format)

-- The bits of the type that `va_arg` and the cast leave.
abbrev pub bits : Length → ℕ
bits length_hh = 8
bits length_h = 16
bits length_l = 64
bits length_ll = 64
bits length_j = 64
bits length_z = 64
bits length_t = 64
bits length_none = 32
bits length_ldbl = 32
