-- ===== src/Format/Conversions.antt =====
-- The conversions of one argument: where one has a text, it is sent.
use aic_lib.Base.{
  ℕ, ◌-◌, ◌%◌, ◌^◌, ◌≡◌, ◌≢◌, refl, arith, Bool, true, false, ◌&&◌, ◌==◌, ltb, min, if◌then◌else◌,
  List, [], ◌∷◌, ◌++◌, Option, none, some, length, replicate, All, ap, inl, inr, Bool-cases,
  All-append, All-replicate,
}
use aic_lib.Memory.{Cmd, ◌>>=◌}
use aic_lib.Format.Output.{State, output_char, output_padding}
use aic_lib.Format.Number.{uint_to_string}
use aic_lib.Format.Number.Numerals.{uint_to_string-NonZero}
use mathlib.Core.Path.{subst}
use aic_lib.Format.Integer.{Flags, prefix_of, number_text, format_integer, format_pointer}
use aic_lib.Format.Driver.{Env, Field, is_one_of, convert_word}
use aic_lib.Format.Emit.{emit}
use aic_lib.Format.Field.{bits}
use aic_lib.Format.Agreement.Digits.{
  front_text-prefix_of, digits_text-number_text, type_bits-bits, absolute-magnitude,
  below_zero-is_negative,
}
use aic_lib.Format.Text.{integer_text, char_text, word_text, nil_text, is_text}
use aic_lib.Format.Render.{
  Sends, Sends-then, Sends-char, output_number-Sends, format_string-Sends, output_padding-Sends,
}

NonZero-if :
    (b : Bool) (xs ys : List ℕ)
    → All (λ c. c ≢ 0) xs
    → All (λ c. c ≢ 0) ys
    → All (λ c. c ≢ 0) (if b then xs else ys)
NonZero-if true xs ys h k = h
NonZero-if false xs ys h k = k

number_text-NonZero :
    (value base : ℕ) (flags : Flags) (precision : ℕ)
    → All (λ c. c ≢ 0) (number_text value base flags precision)
unfolding number_text
number_text-NonZero value base flags precision =
    padded
      (if (value == 0) && ((precision == 0) && flags.has_precision)
        then []
        else uint_to_string 128 value base flags.uppercase)
      (NonZero-if ((value == 0) && ((precision == 0) && flags.has_precision)) [] _ tt
        (uint_to_string-NonZero 128 value base flags.uppercase))
  where
    padded :
        (num : List ℕ)
        → All (λ c. c ≢ 0) num
        → All
            (λ c. c ≢ 0)
            (if ltb 0 precision && ltb (length num) precision
              then replicate (min (precision - length num) (128 - length num)) b'0' ++ num
              else num)
    padded num h =
        NonZero-if (ltb 0 precision && ltb (length num) precision) _ num
          (All-append (λ c. c ≢ 0)
            (replicate (min (precision - length num) (128 - length num)) b'0') num
            (All-replicate (λ c. c ≢ 0) _ b'0' (λ e. ground arith)) h)
          h

format_integer-Sends :
    (junk : List ℕ) (value base : ℕ) (flags : Flags) (width precision : ℕ) (signed neg : Bool)
    → (flags.group && (base == 10)) ≡ false
    → Sends
        (λ st. format_integer junk st value base flags width precision signed neg)
        (integer_text value base flags width precision signed neg)
unfolding format_integer
format_integer-Sends junk value base flags width precision signed neg e st m =
    rw
      (
        e,
        front_text-prefix_of value base flags signed neg,
        digits_text-number_text value base flags precision,
      )
      (output_number-Sends flags width (prefix_of value base flags signed neg)
        (number_text value base flags precision) junk
        (number_text-NonZero value base flags precision) st m)

-- A character in a field.
pub char-Sends :
    (flags : Flags) (width c : ℕ)
    → Sends
        (λ st.
          let pad = if ltb 1 width then width - 1 else 0 in
          if flags.left
          then (output_char st c >>= (λ st₁. output_padding st₁ b' ' pad))
          else (output_padding st b' ' pad >>= (λ st₁. output_char st₁ c)))
        (char_text flags width c)
unfolding char_text
char-Sends flags width c st m =
    let spaces = output_padding-Sends b' ' (width - 1) in
    let pad : (if ltb 1 width then width - 1 else 0) ≡ width - 1 = ground arith in
    rw pad (elim (Bool-cases flags.left) [
      | inl left ↦
          rw left (Sends-then (λ s. output_char s c) _ (c ∷ []) _ (Sends-char c) spaces st m)
      | inr right ↦
          rw right (Sends-then _ (λ s. output_char s c) _ (c ∷ []) spaces (Sends-char c) st m)
    ])

pub get_some : {A : Type 0} {x y : A} → some x ≡ some y → x ≡ y
get_some {A} {x} e = ap (λ (o : Option A). elim o [ none ↦ x | some z ↦ z ]) e

pub none_not_some : {A : Type 0} {x : A} → none ≡ some x → ⊥
none_not_some {A} {x} e = subst (λ (o : Option A). elim o [ none ↦ Unit {0} | some z ↦ ⊥ ]) e tt

-- Where the conversion has a text, the command sends it.
abbrev pub Fits : Option (List ℕ) → (State → Cmd State) → Type 0
Fits o f = (xs : List ℕ) → o ≡ some xs → Sends f xs

pub Fits-some : (ys : List ℕ) (f : State → Cmd State) → Sends f ys → Fits (some ys) f
Fits-some ys f h xs e = subst (Sends f) (get_some e) h

pub Fits-none : (f : State → Cmd State) → Fits none f
Fits-none f xs e = ground arith

pub Fits-if :
    (b : Bool) (o p : Option (List ℕ)) (f g : State → Cmd State)
    → ((b ≡ true) → Fits o f)
    → ((b ≡ false) → Fits p g)
    → Fits (if b then o else p) (λ st. if b then f st else g st)
Fits-if true o p f g h k = h refl
Fits-if false o p f g h k = k refl

pub is_text_sound : (xs : List ℕ) → is_text xs ≡ true → All (λ c. c ≢ 0) xs
is_text_sound [] e = tt
is_text_sound (x ∷ xs) e = ((λ z. ground arith), is_text_sound xs (ground arith))

module _ {D : Type 0} (env : Env D) where
  integer-Fits :
      (junk : List ℕ) (value base : ℕ) (flags : Flags) (width precision : ℕ) (signed neg : Bool)
      → Fits
          (if flags.group
            then none
            else some (integer_text value base flags width precision signed neg))
          (λ st. format_integer junk st value base flags width precision signed neg)
  integer-Fits junk value base flags width precision signed neg = int_cases flags.group refl
    where
      int_cases :
          (g : Bool)
          → flags.group ≡ g
          → Fits
              (if g then none else some (integer_text value base flags width precision signed neg))
              (λ st. format_integer junk st value base flags width precision signed neg)
      int_cases true e = Fits-none _
      int_cases false e =
          Fits-some _ _
            (format_integer-Sends junk value base flags width precision signed neg (rw e refl))

  pub convert_word-Fits : (f : Field) (w : ℕ) → Fits (word_text f w) (λ st. convert_word env st f w)
  unfolding convert_word word_text format_pointer emit
  convert_word-Fits f w =
      Fits-if (is_one_of f.spec (b'd' ∷ b'i' ∷ [])) _ _ _ _
        (λ _.
          rw
            (
              type_bits-bits f.length,
              absolute-magnitude (bits f.length) w,
              below_zero-is_negative (bits f.length) w,
            )
            (integer-Fits env.junk _ 10 f.flags f.width f.precision true _))
        (λ _.
          Fits-if (is_one_of f.spec (b'u' ∷ b'o' ∷ b'x' ∷ b'X' ∷ [])) _ _ _ _
            (λ _.
              rw (type_bits-bits f.length)
                (integer-Fits env.junk _ _ f.flags f.width f.precision false false))
            (λ _.
              Fits-if (f.spec == b'c') _ _ _ _
                (λ _. Fits-some _ _ (char-Sends f.flags f.width (w % 256)))
                (λ _.
                  Fits-if (f.spec == b'p') _ _ _ _
                    (λ _.
                      Fits-if (w % 2 ^ 64 == 0) _ _ _ _
                        (λ _. Fits-some _ _ (
                          format_string-Sends f.flags f.width (some nil_text) (2 ^ 64 - 1) (
                            (λ e. ground arith),
                            (
                              (λ e. ground arith),
                              (
                                (λ e. ground arith),
                                ((λ e. ground arith), ((λ e. ground arith), tt)),
                              ),
                            ),
                          )))
                        (λ _. Fits-some _ _ (
                          format_integer-Sends env.junk (w % 2 ^ 64) 16
                            (record (f.flags) { hash = true }) f.width 16 false false
                            (ground arith))))
                    (λ _.
                      Fits-if (w % 2 ^ 64 == 0) _ _ _ _ (λ _. Fits-some [] _ (λ st m. refl))
                        (λ _. Fits-none _)))))
