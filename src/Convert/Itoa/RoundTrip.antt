-- ===== src/Convert/Itoa/RoundTrip.antt =====
-- What `strtol` makes of the text that `itoa` writes.
use aic_lib.Base.{
  ℕ, suc, ◌+◌, ◌-◌, ◌*◌, ◌^◌, ◌<◌, ◌≤◌, ◌≡◌, ◌≢◌, refl, arith, Bool, List, [], ◌∷◌, ◌++◌, length,
  length-append, length-reverse, get_or, ltb, leb, ◌==◌, if◌then◌else◌, true, false, inl, inr,
  Bool-cases, ◌∙◌, ap, sym,
}
use aic_lib.Base.Int.{ℤ, pos, negsuc}
use aic_lib.Memory.{Memory, done}
use aic_lib.Memory.Region.{IsString, Mapped, SameOutside}
use aic_lib.Memory.Ends
use aic_lib.Memory.Ends.{Ends}
use aic_lib.Ctype.{isspace}
use aic_lib.Convert.{Converted, strtol}
use aic_lib.Convert.Digits.{digit_prefix}
use aic_lib.Convert.Accumulate.{value}
use aic_lib.Convert.Strtol.{
  Sign, unsigned, minus, is_negative, sign_text, meaning, NoSign, clamp, out_of_range,
  strtol-meaning,
}
use aic_lib.Format.Number.{digits_loop}
use aic_lib.Convert.Itoa.{itoa}
use aic_lib.Convert.Itoa.Lower.{numeral-IsLower, no_prefix, no_space, no_sign}
use aic_lib.Convert.Itoa.Written.{numeral, IsLong, itoa_text, itoa-itoa_text, numeral-reverse}
use aic_lib.Format.Number.Numerals.{uint_to_string-value, uint_to_string-zero, length-digits_loop}

meaning-digits :
    (half : ℕ) (neg : Bool) (nptr base v p q : ℕ) (ds : List ℕ)
    → value base 0 ds ≡ v
    → 1 ≤ length ds
    → p ≡ q
    → meaning half neg nptr base ds p
      ≡ record { value = clamp half neg v; end = q; range_error = out_of_range half neg v }
meaning-digits half neg nptr base v p q [] number some_digit same = absurd (omega arith)
meaning-digits half neg nptr base v p q (d ∷ ds) number some_digit same = rw (number, same) refl

value-digits : (base v : ℕ) (ds : List ℕ) → value base 0 ds ≡ v → v ≢ 0 → 1 ≤ length ds
unfolding value
value-digits base v [] e ne = absurd (ne (sym e))
value-digits base v (d ∷ ds) e ne = omega arith

numeral-digits :
    (base : ℕ)
    → 2 ≤ base
    → base ≤ 16
    → (v : ℕ) → value base 0 (digit_prefix base (numeral v base)) ≡ v
    → length (digit_prefix base (numeral v base)) ≡ length (numeral v base)
    → 1 ≤ length (digit_prefix base (numeral v base))
numeral-digits base low high v number size = elim (Bool-cases (v == 0)) [
  | inl none_left ↦
      let e : v ≡ 0 = ground arith in
      let text = uint_to_string-zero base false low (omega arith) 64 (omega arith) in
      omega (arith, size, ap (λ x. length (numeral x base)) e, ap (λ t. length t) text)
  | inr more ↦
      value-digits base v (digit_prefix base (numeral v base)) number (λ e. ground (arith, more, e))
]

-- What `strtol` returns for a signed numeral.
strtol-numeral :
    (half k buf base v : ℕ) (m : Memory) (sg : Sign)
    → 0 < half
    → 2 ≤ base
    → base ≤ 16
    → v < 2 ^ 64
    → NoSign sg (numeral v base)
    → isspace (get_or (sign_text sg ++ numeral v base) 0 0) ≡ false
    → length (sign_text sg ++ numeral v base) < k
    → IsString m buf (sign_text sg ++ numeral v base)
    → strtol half k buf base m
      ≡ done
          (record {
            value = clamp half (is_negative sg) v;
            end = buf + length (sign_text sg ++ numeral v base);
            range_error = out_of_range half (is_negative sg) v;
          })
          m
strtol-numeral half k buf base v m sg pos_half low high small free other lt str =
    let xs = numeral v base in
    let (number, size) =
      uint_to_string-value base false low (omega arith) 64 v (omega arith) small in
    let plain = numeral-IsLower base low high v in
    let no_zero : (base == 0) ≡ false = ground arith in
    strtol-meaning half k buf base m [] sg xs pos_half str tt other free lt
    ∙ ap (λ c. done c m)
        (rw (no_prefix base xs plain, no_zero)
          (meaning-digits half (is_negative sg) buf base v _ _ (digit_prefix base xs) number
            (numeral-digits base low high v number size)
            (omega (arith, size, length-append (sign_text sg) xs))))

length-numeral : (base v : ℕ) → 2 ≤ base → base ≤ 16 → length (numeral v base) ≤ 64
length-numeral base v low high = elim (Bool-cases (v == 0)) [
  | inl none_left ↦
      let e : v ≡ 0 = ground arith in
      let text = uint_to_string-zero base false low (omega arith) 64 (omega arith) in
      omega (arith, ap (λ x. length (numeral x base)) e, ap (λ t. length t) text)
  | inr more ↦ omega (
    arith,
    ap (λ t. length t) (numeral-reverse base low high v more),
    length-reverse (digits_loop 64 v base false),
    length-digits_loop base false low (omega arith) 64 v,
  )
]

-- What `strtol` is to give of the text: the number, but for a negative one that was written as a
-- two's complement the largest `long`, as out of range.
abbrev pub read_back : ℕ → ℤ → ℕ → ℕ → Converted
read_back half (pos n) base end = record { value = pos n; end = end; range_error = false }
read_back half (negsuc n) base end =
    if base == 10
    then record { value = negsuc n; end = end; range_error = false }
    else record { value = pos (half - 1); end = end; range_error = true }

strtol-itoa_text :
    (half k : ℕ) (val : ℤ) (buf base : ℕ) (m : Memory)
    → 2 * half ≤ 2 ^ 64
    → IsLong half val
    → 2 ≤ base
    → base ≤ 16
    → 65 < k
    → IsString m buf (itoa_text half val base)
    → strtol half k buf base m
      ≡ done (read_back half val base (buf + length (itoa_text half val base))) m
unfolding isspace
strtol-itoa_text half k (pos n) buf base m wide fits low high lt str =
    let plain = numeral-IsLower base low high n in
    let in_range : ltb n half ≡ true = ground arith in
    let no_error : leb half n ≡ false = ground arith in
    strtol-numeral half k buf base n m unsigned (omega arith) low high (omega arith)
      (no_sign (numeral n base) plain) (no_space (numeral n base) plain)
      (omega (arith, length-numeral base n low high)) str
    ∙ rw (in_range, no_error) refl
strtol-itoa_text half k (negsuc n) buf base m wide fits low high lt str =
    elim (Bool-cases (base == 10)) [
      | inl ten ↦
          let in_range : ltb half (suc n) ≡ false = ground arith in
          let next : n + 1 ≡ suc n = omega arith in
          rw (ten, next)
            (strtol-numeral half k buf base (suc n) m minus (omega arith) low high (omega arith) tt
                refl (omega (arith, length-numeral base (suc n) low high)) (rw (ten, next) at str)
              ∙ rw in_range refl)
      | inr other ↦
          let v = 2 * half - suc n in
          let plain = numeral-IsLower base low high v in
          let too_large : ltb v half ≡ false = ground arith in
          let error : leb half v ≡ true = ground arith in
          rw other (
            strtol-numeral half k buf base v m unsigned (omega arith) low high (omega arith)
              (no_sign (numeral v base) plain) (no_space (numeral v base) plain)
              (omega (arith, length-numeral base v low high)) (rw other at str)
            ∙ rw (too_large, error) refl)
    ]

-- For a `long` of at most 64 bits, a base from 2 to 16 and a buffer of 66 mapped bytes: `itoa` ends
-- without a fault, returns the buffer and writes nowhere else, and `strtol` of what it leaves there
-- in the same base gives the number back, without an error, with the end pointer behind the text,
-- but for a negative number in a base other than 10 the largest `long` with `ERANGE`.
pub itoa-strtol :
    (half k : ℕ) (val : ℤ) (buf base : ℕ) (m : Memory)
    → 2 * half ≤ 2 ^ 64
    → IsLong half val
    → 2 ≤ base
    → base ≤ 16
    → 65 < k
    → Mapped m buf 66
    → Ends
        (λ r m'.
          (r ≡ buf)
          × SameOutside buf 66 m m'
          × (strtol half k buf base m'
              ≡ done (read_back half val base (buf + length (itoa_text half val base))) m'))
        (itoa half k val buf base m)
itoa-strtol half k val buf base m wide fits low high lt h =
    Ends.weaken (itoa-itoa_text half k val buf base m wide fits low high (omega arith) h)
      (λ r m' (e, str, same).
        (e, same, strtol-itoa_text half k val buf base m' wide fits low high lt str))
