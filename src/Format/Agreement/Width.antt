-- ===== src/Format/Agreement/Width.antt =====
-- The width and the precision that vsnprintf.c reads against their meaning.
use aic_lib.Base.{
  ℕ, ◌%◌, ◌^◌, ◌≤◌, ◌≡◌, refl, arith, Bool, true, false, ◌&&◌, ◌==◌, ltb, leb, min, if◌then◌else◌,
  List, [], ◌∷◌, Option, none, some, ap, inl, inr, Bool-cases,
}
use aic_lib.Format.Integer.{Flags}
use aic_lib.Format.Number.{int_max}
use aic_lib.Format.Field.{
  Arg, word, text, real, Rest, parse_width, parse_precision, dot_precision, int_arg,
}
use aic_lib.Format.Number.Decimal.{parse_format_int-decimal}
use aic_lib.Format.Meaning.{
  digit_run, behind_digits, decimal, star_arg, star_width, given_width, star_precision,
  given_precision, behind_dot,
}

min-min : (v top : ℕ) → top ≤ int_max → min (min v int_max) top ≡ min v top
min-min v top h = ground arith

module _ {D : Type 0} where
  int_arg-star_arg : (args : List (Arg D)) → int_arg args ≡ star_arg args
  int_arg-star_arg [] = refl
  int_arg-star_arg (text t ∷ args) = refl
  int_arg-star_arg (real d ∷ args) = refl
  int_arg-star_arg (word w ∷ args) = elim (Bool-cases (ltb (w % 2 ^ 32) (2 ^ 31))) [
    | inl low ↦ let low' : leb (2 ^ 31) (w % 2 ^ 32) ≡ false = ground arith in rw (low, low') refl
    | inr high ↦
        let high' : leb (2 ^ 31) (w % 2 ^ 32) ≡ true = ground arith in rw (high, high') refl
  ]

  width_star :
      (fl : Flags) (format : List ℕ) (o : Option ((Bool × ℕ) × List (Arg D)))
      → elim o as (λ _. Option (Rest D)) [
        | none ↦ none
        | some ((neg, v), args') ↦
            if neg && (v == 2 ^ 31)
            then none
            else some (record {
              flags = if neg then record fl { left = true } else fl;
              number = min v 100000;
              format = format;
              args = args';
            })
      ]
        ≡ star_width fl format o
  width_star fl format none = refl
  width_star fl format (some ((true, v), args)) = refl
  width_star fl format (some ((false, v), args)) = refl

  pub parse_width-given_width :
      (fl : Flags) (format : List ℕ) (args : List (Arg D))
      → parse_width fl format args ≡ given_width fl format args
  unfolding parse_width given_width digit_run behind_digits decimal
  parse_width-given_width fl [] args = rw (parse_format_int-decimal []) refl
  parse_width-given_width fl (c ∷ format) args = elim (Bool-cases (c == b'*')) [
    | inl star ↦ rw (star, int_arg-star_arg args) (width_star fl format (star_arg args))
    | inr digits ↦
        rw
          (
            digits,
            parse_format_int-decimal (c ∷ format),
            min-min (decimal 0 (digit_run (c ∷ format))) 100000 (omega arith),
          )
          refl
  ]

  precision_star :
      (fl : Flags) (format : List ℕ) (o : Option ((Bool × ℕ) × List (Arg D)))
      → elim o as (λ _. Option (Rest D)) [
        | none ↦ none
        | some ((neg, v), args') ↦ some (record {
          flags = record fl { has_precision = if neg then false else true };
          number = if neg then 0 else min v 1000;
          format = format;
          args = args';
        })
      ]
        ≡ star_precision fl format o
  precision_star fl format none = refl
  precision_star fl format (some ((true, v), args)) = refl
  precision_star fl format (some ((false, v), args)) = refl

  dot_precision-behind_dot :
      (fl : Flags) (format : List ℕ) (args : List (Arg D))
      → dot_precision fl format args ≡ behind_dot fl format args
  unfolding digit_run behind_digits decimal
  dot_precision-behind_dot fl [] args = rw (parse_format_int-decimal []) refl
  dot_precision-behind_dot fl (c ∷ format) args = elim (Bool-cases (c == b'*')) [
    | inl star ↦ rw (star, int_arg-star_arg args) (precision_star fl format (star_arg args))
    | inr digits ↦
        rw
          (
            digits,
            parse_format_int-decimal (c ∷ format),
            min-min (decimal 0 (digit_run (c ∷ format))) 1000 (omega arith),
          )
          refl
  ]

  pub parse_precision-given_precision :
      (fl : Flags) (format : List ℕ) (args : List (Arg D))
      → parse_precision fl format args ≡ given_precision fl format args
  unfolding parse_precision given_precision
  parse_precision-given_precision fl [] args = refl
  parse_precision-given_precision fl (c ∷ format) args =
      ap
        (λ o.
          if c == b'.'
          then o
          else some (record { flags = fl; number = 0; format = c ∷ format; args = args }))
        (dot_precision-behind_dot fl format args)
