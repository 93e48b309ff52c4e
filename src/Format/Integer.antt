-- ===== src/Format/Integer.antt =====
-- `format_integer`, `format_string` and `format_pointer` of vsnprintf.c.
use aic_lib.Base.{
  ℕ, ◌+◌, ◌-◌, ◌^◌, Bool, true, false, not, ◌&&◌, ◌==◌, ltb, min, if◌then◌else◌, List, [], ◌∷◌,
  ◌++◌, Option, none, some, length, replicate, drop,
}
use aic_lib.Memory.{Cmd, pure, fault, ◌>>=◌}
use aic_lib.Format.Output.{
  State, output_char, output_array, output_string, output_padding, null_text,
}
use aic_lib.Format.Number.{uint_to_string, add_grouping}

-- `format_flags_t`: one Boolean for each bit that the code sets and reads. (`FLAG_SIGNED` is set and
-- never read, and `FLAG_NEGATIVE` is never set.)
pub record Flags : Type 0 where
  pub left : Bool
  pub plus : Bool
  pub space : Bool
  pub zero_pad : Bool
  pub hash : Bool
  pub group : Bool
  pub uppercase : Bool
  pub has_precision : Bool

-- The array `prefix`: the sign, then the mark of the base.
unfoldable pub prefix_of : ℕ → ℕ → Flags → Bool → Bool → List ℕ
prefix_of value base flags is_signed is_negative =
    (if is_signed
      then (if is_negative
          then b'-' ∷ []
          else if flags.plus
          then b'+' ∷ []
          else if flags.space
          then b' ' ∷ []
          else [])
      else [])
    ++ (if flags.hash && not (value == 0)
        then (if base == 8
            then b'0' ∷ []
            else if base == 16
            then b'0' ∷ (if flags.uppercase then b'X' else b'x') ∷ []
            else if base == 2
            then b'0' ∷ (if flags.uppercase then b'B' else b'b') ∷ []
            else [])
        else [])

-- The bytes from the start of an array on, over what it held.
abbrev pub overlay : List ℕ → List ℕ → List ℕ
overlay xs buf = xs ++ drop (length xs) buf

-- The digits in `num_buf` before grouping: none for a zero with precision 0, and zeros in front
-- up to the precision or the size of the array.
unfoldable pub number_text : ℕ → ℕ → Flags → ℕ → List ℕ
number_text value base flags precision =
    let num =
      if (value == 0) && ((precision == 0) && flags.has_precision)
      then []
      else uint_to_string 128 value base flags.uppercase in
    if ltb 0 precision && ltb (length num) precision
    then replicate (min (precision - length num) (128 - length num)) b'0' ++ num
    else num

-- `for (i = 0; i < prefix_len; i++) output_char(state, prefix[i]);`
unfoldable pub output_prefix : State → List ℕ → Cmd State
output_prefix st [] = pure st
output_prefix st (c ∷ cs) = do st' ← output_char st c; output_prefix st' cs

-- The three layouts, over `num_buf` and `num_len`.
unfoldable pub output_number : State → Flags → ℕ → List ℕ → List ℕ → ℕ → Cmd State
unfolding output_prefix
output_number st flags width prefix num_buf num_len =
    let out_len = length prefix + num_len in
    let pad_len = if ltb out_len width then width - out_len else 0 in
    if flags.left
    then (do
      st₁ ← output_prefix st prefix
      st₂ ← output_array st₁ num_len num_buf
      output_padding st₂ b' ' pad_len)
    else if flags.zero_pad && (not flags.has_precision)
    then (do
      st₁ ← output_prefix st prefix
      st₂ ← output_padding st₁ b'0' pad_len
      output_array st₂ num_len num_buf)
    else (do
      st₁ ← output_padding st b' ' pad_len
      st₂ ← output_prefix st₁ prefix
      output_array st₂ num_len num_buf)

-- `junk` is what the array `num_buf` of 128 bytes holds before the call. A write past the end of the
-- array is a fault.
unfoldable pub format_integer : List ℕ → State → ℕ → ℕ → Flags → ℕ → ℕ → Bool → Bool → Cmd State
format_integer junk st value base flags width precision is_signed is_negative =
    let prefix = prefix_of value base flags is_signed is_negative in
    let num = number_text value base flags precision in
    if flags.group && (base == 10)
    then elim (add_grouping (overlay num junk) (length num) b',') [
      | none ↦ λ _. fault
      | some (num_buf, num_len) ↦ output_number st flags width prefix num_buf num_len
    ]
    else output_number st flags width prefix (overlay num junk) (length num)

-- `(size_t)precision` for the precision -1 that `format_pointer` passes matters only with
-- `FLAG_PRECISION`, so the precision here is its 64-bit pattern.
unfoldable pub format_string : State → Option (List ℕ) → Flags → ℕ → ℕ → Cmd State
format_string st str flags width precision =
    let text : List ℕ = elim str [ none ↦ null_text | some s ↦ s ] in
    let len =
      if flags.has_precision && ltb precision (length text) then precision else length text in
    let pad_len = if ltb len width then width - len else 0 in
    if flags.left
    then (do st₁ ← output_string st (some text) len; output_padding st₁ b' ' pad_len)
    else (do st₁ ← output_padding st b' ' pad_len; output_string st₁ (some text) len)

-- Pointers have 8 bytes.
unfoldable pub format_pointer : List ℕ → State → ℕ → Flags → ℕ → Cmd State
format_pointer junk st ptr flags width =
    if ptr == 0
    then format_string st (some (b'(' ∷ b'n' ∷ b'i' ∷ b'l' ∷ b')' ∷ [])) flags width (2 ^ 64 - 1)
    else format_integer junk st ptr 16 (record flags { hash = true }) width 16 false false
