-- ===== src/Format/Number/Numerals.antt =====
-- The digits that vsnprintf.c writes, read back as `strtol` reads them.
use native.Mathlib.Nat.{mod-lt, div-add-mod', div-lt_iff_lt-mul, pow-suc, pow-zero}
use aic_lib.Base.{
  ℕ, zero, suc, ◌+◌, ◌/◌, ◌%◌, ◌^◌, ◌<◌, ◌≤◌, ◌≡◌, ◌≢◌, refl, arith, Bool, true, false, ◌||◌, ◌==◌,
  leb, ltb, List, [], ◌∷◌, Option, none, some, length, take, take-all, length-reverse, All,
  All-take, All-reverse_aux, ◌∙◌, sym, ap, inl, inr, Bool-cases, reverse, all_below, all_below_lem,
}
use mathlib.Core.List.{reverse_aux}
use mathlib.Core.Path.{subst}
use aic_lib.Ctype.{isdigit, isalpha, isupper}
use aic_lib.Convert.{digit_value}
use aic_lib.Convert.Digits.{digit_prefix}
use aic_lib.Convert.Accumulate.{value}
use aic_lib.Format.Number.{digit_char, digits_loop, temp_digits, uint_to_string}

abbrev pub is_some_digit : Option ℕ → ℕ → Bool
is_some_digit none d = false
is_some_digit (some e) d = e == d

pub is_some_digit_sound : (o : Option ℕ) (d : ℕ) → is_some_digit o d ≡ true → o ≡ some d
is_some_digit_sound none d e = ground arith
is_some_digit_sound (some b) d e = ground arith

-- Is the digit read back?
abbrev is_read_back : Bool → ℕ → Bool
is_read_back upper d = is_some_digit (digit_value (digit_char upper d)) d

-- For upper and lower case.
all_read_back : (upper : Bool) → all_below (is_read_back upper) 36 ≡ true
unfolding digit_value digit_char isdigit isalpha isupper
all_read_back true = refl
all_read_back false = refl

pub digit_value-digit_char :
    (upper : Bool) (d : ℕ) → d < 36 → digit_value (digit_char upper d) ≡ some d
digit_value-digit_char upper d lt =
    is_some_digit_sound (digit_value (digit_char upper d)) d
      (all_below_lem (is_read_back upper) 36 d (all_read_back upper) lt)

abbrev pub NonZero : ℕ → Type 0
NonZero c = c ≢ 0

digit_char-NonZero : (upper : Bool) (d : ℕ) → NonZero (digit_char upper d)
unfolding digit_char
digit_char-NonZero upper d e = ground arith

pub digits_loop-NonZero :
    (left v base : ℕ) (upper : Bool) → All NonZero (digits_loop left v base upper)
unfolding digits_loop
digits_loop-NonZero zero v base upper = tt
digits_loop-NonZero (suc left) v base upper = elim (Bool-cases (v == 0)) [
  | inl none_left ↦ rw none_left tt
  | inr more ↦
      rw more (digit_char-NonZero upper (v % base), digits_loop-NonZero left (v / base) base upper)
]

temp_digits-NonZero : (v base : ℕ) (upper : Bool) → All NonZero (temp_digits v base upper)
unfolding temp_digits
temp_digits-NonZero v base upper = digits_loop-NonZero 64 v base upper

-- No byte of the text is zero.
pub uint_to_string-NonZero :
    (bufsize v base : ℕ) (upper : Bool) → All (λ c. c ≢ 0) (uint_to_string bufsize v base upper)
unfolding uint_to_string
uint_to_string-NonZero bufsize v base upper = elim (Bool-cases (v == 0)) [
  | inl none_left ↦ rw none_left (All-take NonZero bufsize (b'0' ∷ []) ((λ e. ground arith), tt))
  | inr more ↦ rw more (
      All-reverse_aux NonZero (take bufsize (temp_digits v _ upper)) []
        (All-take NonZero bufsize (temp_digits v _ upper) (temp_digits-NonZero v _ upper)) tt)
]

module _ (base : ℕ) (upper : Bool) (low : 2 ≤ base) (high : base ≤ 36) where
  digit_prefix-digit_char :
      (d : ℕ) (r : List ℕ)
      → d < base
      → digit_prefix base (digit_char upper d ∷ r) ≡ d ∷ digit_prefix base r
  unfolding digit_prefix
  digit_prefix-digit_char d r lt =
      let small : leb base d ≡ false = ground arith in
      rw (digit_value-digit_char upper d (omega arith), digit_prefix, small) refl

  pub quotient_fits : (left v : ℕ) → v < 2 ^ suc left → v / base < 2 ^ left
  quotient_fits left v lt = (div-lt_iff_lt-mul (omega arith)).1 (grind (arith, pow-suc 2 left))

  -- The digits go in front of a text in reverse order.
  digits_loop-value :
      (left v : ℕ) (r : List ℕ)
      → v < 2 ^ left
      → (value base 0 (digit_prefix base (reverse_aux (digits_loop left v base upper) r))
          ≡ value base v (digit_prefix base r))
        × (length (digit_prefix base (reverse_aux (digits_loop left v base upper) r))
            ≡ length (digits_loop left v base upper) + length (digit_prefix base r))
  unfolding digits_loop value
  digits_loop-value zero v r lt =
      let e : v ≡ 0 = omega (arith, pow-zero 2) in (rw e refl, omega arith)
  digits_loop-value (suc left) v r lt = elim (Bool-cases (v == 0)) [
    | inl none_left ↦ let e : v ≡ 0 = ground arith in rw e (refl, omega arith)
    | inr more ↦
        let c = digit_char upper (v % base) in
        let (number, size) = digits_loop-value left (v / base) (c ∷ r) (quotient_fits left v lt) in
        let read = digit_prefix-digit_char (v % base) r (mod-lt v (omega arith)) in
        rw more (
          number
              ∙ ap (value base (v / base)) read
              ∙ ap (λ x. value base x (digit_prefix base r)) (div-add-mod' v base),
          size ∙ omega (arith, ap length read),
        )
  ]

  pub length-digits_loop : (left v : ℕ) → length (digits_loop left v base upper) ≤ left
  unfolding digits_loop
  length-digits_loop zero v = omega arith
  length-digits_loop (suc left) v = ground (arith, length-digits_loop left (v / base))

  nothing_behind : (v : ℕ) → value base v (digit_prefix base []) ≡ v
  unfolding value digit_prefix
  nothing_behind v = refl

  zero_text :
      (value base 0 (digit_prefix base (b'0' ∷ [])) ≡ 0)
      × (length (digit_prefix base (b'0' ∷ [])) ≡ 1)
  unfolding value digit_char digit_prefix
  zero_text = rw (digit_prefix-digit_char 0 [] (omega arith)) (omega arith, refl)

  abbrev pub Reads : ℕ → List ℕ → Type 0
  Reads v text =
      (value base 0 (digit_prefix base text) ≡ v) × (length (digit_prefix base text) ≡ length text)

  length-temp_digits : (v : ℕ) → length (temp_digits v base upper) ≤ 64
  unfolding temp_digits
  length-temp_digits v = length-digits_loop 64 v

  pub digits_loop-Reads :
      (left v : ℕ) → v < 2 ^ left → Reads v (reverse (digits_loop left v base upper))
  unfolding digit_prefix value
  digits_loop-Reads left v small =
      let (number, size) = digits_loop-value left v [] small in
      (number, omega (arith, size, length-reverse (digits_loop left v base upper)))

  temp_digits-value : (v : ℕ) → v < 2 ^ 64 → Reads v (reverse (temp_digits v base upper))
  unfolding temp_digits
  temp_digits-value v small = digits_loop-Reads 64 v small

  pub uint_to_string-zero :
      (bufsize : ℕ) → 1 ≤ bufsize → uint_to_string bufsize 0 base upper ≡ b'0' ∷ []
  unfolding uint_to_string
  uint_to_string-zero bufsize room = take-all bufsize (b'0' ∷ []) room

  pub uint_to_string-reverse :
      (bufsize v : ℕ)
      → 64 ≤ bufsize
      → (v == 0) ≡ false
      → uint_to_string bufsize v base upper ≡ reverse (temp_digits v base upper)
  unfolding uint_to_string
  uint_to_string-reverse bufsize v room more =
      let go : (ltb base 2 || ltb 36 base) ≡ false = ground arith in
      let bound = length-temp_digits v in
      rw (more, go) (ap reverse (take-all bufsize (temp_digits v base upper) (omega arith)))

  -- Every byte that `uint_to_string` writes of a number below 2 ^ 64, in a base from 2 to 36 and
  -- into an array of 64 bytes or more, is a digit as `strtol` reads it, and the digits stand for
  -- the number.
  pub uint_to_string-value :
      (bufsize v : ℕ)
      → 64 ≤ bufsize
      → v < 2 ^ 64
      → (value base 0 (digit_prefix base (uint_to_string bufsize v base upper)) ≡ v)
        × (length (digit_prefix base (uint_to_string bufsize v base upper))
            ≡ length (uint_to_string bufsize v base upper))
  uint_to_string-value bufsize v room small = elim (Bool-cases (v == 0)) [
    | inl none_left ↦
        let e : v ≡ 0 = ground arith in
        subst (λ x. Reads x (uint_to_string bufsize x base upper)) (sym e)
          (subst (Reads 0) (sym (uint_to_string-zero bufsize (omega arith))) zero_text)
    | inr more ↦
        subst (Reads v) (sym (uint_to_string-reverse bufsize v room more))
          (temp_digits-value v small)
  ]
