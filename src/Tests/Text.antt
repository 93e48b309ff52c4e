-- ===== src/Tests/Text.antt =====
-- Characters, numbers in text, and formatted output.
use aic_lib.Base.{ℕ, ◌+◌, replicate, length, ◌^◌, ◌≡◌, refl, arith, [], ◌∷◌, some, false}
use aic_lib.Base.Int.{negsuc}
use aic_lib.Memory.{Memory, done, stuck}
use aic_lib.Memory.Ends.{Ends}
use aic_lib.Memory.Region.{IsString, SameOutside}
use aic_lib.Convert.Itoa.{itoa}
use aic_lib.Convert.Itoa.Written.{itoa_text, itoa-itoa_text}
use aic_lib.Convert.Itoa.RoundTrip.{read_back, itoa-strtol}
use aic_lib.Convert.{strtol, digit_value}
use aic_lib.Convert.Strtol.{has_prefix, minus, strtol-meaning}
use aic_lib.Convert.Digits.{digit_prefix}
use aic_lib.Convert.Accumulate.{value}
use aic_lib.Ctype.{isspace, isdigit, isalpha, isupper}
use aic_lib.Format.Driver.{Env, vsnprintf}
use aic_lib.Format.Bounds.{IsResult}
use aic_lib.Format.Refine.{vsnprintf-rendered}
use aic_lib.Format.Text.{
  rendered, part_text, percent_text, spec_text, field_text, word_text, number_layout,
}
use aic_lib.Format.Field.{word}
use aic_lib.Format.Meaning.{
  given_width, flag_run, behind_flags, given_precision, digit_run, behind_digits, decimal,
  length_modifier, front_text, digits_text,
}
use aic_lib.Format.Number.{uint_to_string, temp_digits}
use aic_lib.Format.Number.Numerals.{uint_to_string-value}
use aic_lib.Tests.Store.{blocks, is_string_sound, is_mapped_sound}

-- The pattern of the `int` -1.
abbrev minus_one : ℕ
minus_one = 4294967295

-- " -0x1fz"
abbrev number : Memory
number = blocks (b' ' ∷ b'-' ∷ b'0' ∷ b'x' ∷ b'1' ∷ b'f' ∷ b'z' ∷ 0 ∷ []) (7 ∷ 7 ∷ 7 ∷ 7 ∷ [])

strtol-meaning_example :
    strtol (2 ^ 63) 8 100 0 number
    ≡ done (record { value = negsuc 30; end = 106; range_error = false }) number
unfolding value digit_prefix has_prefix isspace digit_value isdigit isalpha isupper
strtol-meaning_example =
    strtol-meaning (2 ^ 63) 8 100 0 number (b' ' ∷ []) minus (b'0' ∷ b'x' ∷ b'1' ∷ b'f' ∷ b'z' ∷ [])
      (omega arith)
      (is_string_sound number 100 (b' ' ∷ b'-' ∷ b'0' ∷ b'x' ∷ b'1' ∷ b'f' ∷ b'z' ∷ []) refl)
      (refl, tt) refl tt (omega arith)

-- No conversion of the format below needs these.
abbrev env : Env ℕ
env = record { format_float = λ st d c f w p. stuck; error_text = []; junk = [] }

-- "%05d!" with the number -42, into a buffer of three bytes.
vsnprintf-rendered_example :
    Ends (IsResult 200 3 (b'-' ∷ b'0' ∷ b'0' ∷ b'4' ∷ b'2' ∷ b'!' ∷ []) number) (
      vsnprintf env 6 200 3
        (some (b'%' ∷ b'0' ∷ b'5' ∷ b'd' ∷ b'!' ∷ []))
        (word 4294967254 ∷ [])
        number)
unfolding rendered part_text percent_text spec_text given_width flag_run behind_flags
    given_precision digit_run behind_digits decimal length_modifier field_text word_text
    number_layout front_text digits_text uint_to_string temp_digits
vsnprintf-rendered_example =
    vsnprintf-rendered env 6 200 3 (b'%' ∷ b'0' ∷ b'5' ∷ b'd' ∷ b'!' ∷ []) (word 4294967254 ∷ [])
      (b'-' ∷ b'0' ∷ b'0' ∷ b'4' ∷ b'2' ∷ b'!' ∷ []) number
      (record { ne_null = λ e. ground arith; pos = omega arith; word = omega arith })
      (is_mapped_sound number 200 3 refl) tt refl (omega arith)

uint_to_string-value_example :
    (value 16 0 (digit_prefix 16 (uint_to_string 64 48879 16 false)) ≡ 48879)
    × (length (digit_prefix 16 (uint_to_string 64 48879 16 false))
        ≡ length (uint_to_string 64 48879 16 false))
uint_to_string-value_example =
    uint_to_string-value 16 false (omega arith) (omega arith) 64 48879 (omega arith) (omega arith)

abbrev buffer : Memory
buffer = blocks [] (replicate 66 7)

-- -42 in base 10, and in base 16, where its two's complement is written.
itoa-itoa_text_example :
    Ends
      (λ r m'.
        (r ≡ 200)
        × IsString m' 200 (itoa_text (2 ^ 63) (negsuc 41) 10)
        × SameOutside 200 66 buffer m')
      (itoa (2 ^ 63) 66 (negsuc 41) 200 10 buffer)
itoa-itoa_text_example =
    itoa-itoa_text (2 ^ 63) 66 (negsuc 41) 200 10 buffer (omega arith) (omega arith) (omega arith)
      (omega arith) (omega arith) (is_mapped_sound buffer 200 66 refl)

itoa-strtol_example :
    Ends
      (λ r m'.
        (r ≡ 200)
        × SameOutside 200 66 buffer m'
        × (strtol (2 ^ 63) 66 200 16 m'
            ≡ done
                (read_back
                  (2 ^ 63)
                  (negsuc 41)
                  16
                  (200 + length (itoa_text (2 ^ 63) (negsuc 41) 16)))
                m'))
      (itoa (2 ^ 63) 66 (negsuc 41) 200 16 buffer)
itoa-strtol_example =
    itoa-strtol (2 ^ 63) 66 (negsuc 41) 200 16 buffer (omega arith) (omega arith) (omega arith)
      (omega arith) (omega arith) (is_mapped_sound buffer 200 66 refl)
