-- ===== src/Format/Text.antt =====
-- What a format and its arguments stand for, as a text: the conversions of vsnprintf.c without its
-- state, its buffer and its arrays. A conversion has no text here if it formats a double, groups
-- decimal digits, stores through a pointer, or has `INT_MIN` as its width.
use aic_lib.Base.{
  ℕ, zero, suc, ◌+◌, ◌-◌, ◌%◌, ◌^◌, Bool, true, false, not, ◌&&◌, ◌==◌, leb, if◌then◌else◌, List,
  [], ◌∷◌, ◌++◌, Option, none, some, length, replicate, take,
}
use aic_lib.Format.Integer.{Flags}
use aic_lib.Format.Field.{Arg, word, text, Rest, Length}
use aic_lib.Format.Meaning.{
  flag_run, behind_flags, given_flags, given_width, given_precision, length_modifier, type_bits,
  below_zero, absolute, front_text, digits_text,
}
use aic_lib.Format.Driver.{Field, is_one_of}

-- A sign or mark and digits in a field: the padding is of zeros between them only if that flag is
-- given, no precision is, and the field is not left-justified.
unfoldable pub number_layout : Flags → ℕ → List ℕ → List ℕ → List ℕ
number_layout flags width prefix num =
    let pad = width - (length prefix + length num) in
    if flags.left
    then prefix ++ (num ++ replicate pad b' ')
    else if flags.zero_pad && not flags.has_precision
    then prefix ++ (replicate pad b'0' ++ num)
    else replicate pad b' ' ++ (prefix ++ num)

abbrev pub integer_text : ℕ → ℕ → Flags → ℕ → ℕ → Bool → Bool → List ℕ
integer_text value base flags width precision is_signed is_negative =
    number_layout flags width (front_text value base flags is_signed is_negative)
      (digits_text value base flags precision)

-- A text in a field, cut to the precision if there is one.
unfoldable pub string_text : Flags → ℕ → ℕ → List ℕ → List ℕ
string_text flags width precision str =
    let shown = if flags.has_precision then take precision str else str in
    let spaces = replicate (width - length shown) b' ' in
    if flags.left then shown ++ spaces else spaces ++ shown

abbrev pub nil_text : List ℕ
nil_text = b'(' ∷ b'n' ∷ b'i' ∷ b'l' ∷ b')' ∷ []

unfoldable pub char_text : Flags → ℕ → ℕ → List ℕ
char_text flags width c =
    if flags.left then c ∷ replicate (width - 1) b' ' else replicate (width - 1) b' ' ++ c ∷ []

unfoldable pub word_text : Field → ℕ → Option (List ℕ)
word_text f w =
    if is_one_of f.spec (b'd' ∷ b'i' ∷ [])
    then (if f.flags.group
        then none
        else some (
            integer_text (absolute (type_bits f.length) w) 10 f.flags f.width f.precision true
              (below_zero (type_bits f.length) w)))
    else if is_one_of f.spec (b'u' ∷ b'o' ∷ b'x' ∷ b'X' ∷ [])
    then (if f.flags.group
        then none
        else some (
            integer_text (w % 2 ^ type_bits f.length)
              (if f.spec == b'u' then 10 else if f.spec == b'o' then 8 else 16) f.flags f.width
              f.precision false false))
    else if f.spec == b'c'
    then some (char_text f.flags f.width (w % 256))
    else if f.spec == b'p'
    then (if w % 2 ^ 64 == 0
        then some (string_text f.flags f.width (2 ^ 64 - 1) nil_text)
        else some (
            integer_text (w % 2 ^ 64) 16 (record (f.flags) { hash = true }) f.width 16 false false))
    else if w % 2 ^ 64 == 0
    then some []
    else none

abbrev pub shown_string : Option (List ℕ) → List ℕ
shown_string none = b'(' ∷ b'n' ∷ b'u' ∷ b'l' ∷ b'l' ∷ b')' ∷ []
shown_string (some str) = str

-- A part of the format: its text, whether the format goes on behind it, and what is left.
abbrev pub Part : Type 0 → Type 0
Part D = (List ℕ × Bool) × (List ℕ × List (Arg D))

-- A list that a C string can hold.
abbrev pub is_text : List ℕ → Bool
is_text [] = true
is_text (c ∷ cs) = not (c == 0) && is_text cs

abbrev pub put_front : List ℕ → Option (List ℕ) → Option (List ℕ)
put_front xs none = none
put_front xs (some ys) = some (xs ++ ys)

-- `%m`, and any other byte, which is shown.
abbrev pub none_text : List ℕ → Field → List ℕ
none_text error_text f =
    if f.spec == b'm'
    then string_text f.flags f.width f.precision error_text
    else b'%' ∷ (if f.spec == b'%' then [] else f.spec ∷ [])

module _ {D : Type 0} (error_text : List ℕ) where
  abbrev pub take_one : {A : Type 0} → Option A → List (Arg D) → Option (A × List (Arg D))
  take_one none rest = none
  take_one (some t) rest = some (t, rest)

  abbrev pub word_arg : Field → List (Arg D) → Option (List ℕ × List (Arg D))
  word_arg f (word w ∷ rest) = take_one (word_text f w) rest
  word_arg f _ = none

  abbrev pub text_arg : Field → List (Arg D) → Option (List ℕ × List (Arg D))
  text_arg f (text t ∷ rest) =
      if is_text (shown_string t)
      then some (string_text f.flags f.width f.precision (shown_string t), rest)
      else none
  text_arg f _ = none

  unfoldable pub field_text : Field → List (Arg D) → Option (List ℕ × List (Arg D))
  field_text f args =
      if is_one_of f.spec (b'd' ∷ b'i' ∷ b'u' ∷ b'o' ∷ b'x' ∷ b'X' ∷ b'c' ∷ b'p' ∷ b'n' ∷ [])
      then word_arg f args
      else if f.spec == b's'
      then text_arg f args
      else if is_one_of f.spec (b'f' ∷ b'F' ∷ b'e' ∷ b'E' ∷ b'g' ∷ b'G' ∷ b'a' ∷ b'A' ∷ [])
      then none
      else some (none_text error_text f, args)

  abbrev pub last_text : ℕ → Rest D → Length × List ℕ → Option (Part D)
  last_text width p (len, []) = some (([], false), ([], p.args))
  last_text width p (len, c ∷ rest) =
      elim (field_text
        (record {
          flags = record (p.flags) {
            uppercase = if leb b'A' c && leb c b'Z' then true else p.flags.uppercase;
          };
          width = width;
          precision = p.number;
          length = len;
          spec = c;
        })
        p.args) [ none ↦ none | some (piece, args') ↦ some ((piece, true), (rest, args')) ]

  unfoldable pub spec_text : List ℕ → List (Arg D) → Option (Part D)
  spec_text format args =
      let flags = given_flags (flag_run format) in
      elim (given_width flags (behind_flags format) args) [
        | none ↦ none
        | some w ↦ elim (given_precision w.flags w.format w.args) [
          | none ↦ none
          | some p ↦ last_text w.number p (length_modifier p.format)
        ]
      ]

  unfoldable pub percent_text : List ℕ → List (Arg D) → Option (Part D)
  percent_text [] args = some ((b'%' ∷ [], false), ([], args))
  percent_text (d ∷ rest) args =
      if d == b'%' then some ((b'%' ∷ [], true), (rest, args)) else spec_text (d ∷ rest) args

  unfoldable pub part_text : ℕ → List ℕ → List (Arg D) → Option (Part D)
  part_text c format args =
      if c == b'%' then percent_text format args else some ((c ∷ [], true), (format, args))

  -- The whole text, part by part.
  unfoldable pub rendered : ℕ → List ℕ → List (Arg D) → Option (List ℕ)
  rendered zero format args = none
  rendered (suc k) [] args = some []
  rendered (suc k) (c ∷ format) args = elim (part_text c format args) [
    | none ↦ none
    | some ((piece, more), (format', args')) ↦ elim more [
      | true ↦ put_front piece (rendered k format' args')
      | false ↦ some piece
    ]
  ]
