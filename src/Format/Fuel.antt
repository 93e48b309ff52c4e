-- ===== src/Format/Fuel.antt =====
-- A part of a format leaves less of the format, so that fuel for its length is enough.
use aic_lib.Base.{
  ℕ, zero, suc, ◌<◌, ◌≤◌, ◌≡◌, refl, arith, Bool, true, false, ◌==◌, if◌then◌else◌, List, [], ◌∷◌,
  Option, none, some, length, ap,
}
use aic_lib.Format.Integer.{Flags}
use aic_lib.Format.Field.{Arg, Rest, Length}
use aic_lib.Format.Meaning.{
  flag_run, behind_flags, given_flags, behind_digits, star_arg, star_width, given_width,
  star_precision, given_precision, length_modifier,
}
use aic_lib.Format.Text.{
  field_text, last_text, spec_text, percent_text, part_text, put_front, rendered, Part,
}

behind_flags-length : (format : List ℕ) → length (behind_flags format) ≤ length format
unfolding behind_flags
behind_flags-length [] = omega arith
behind_flags-length (c ∷ format) = ground (arith, behind_flags-length format)

behind_digits-length : (format : List ℕ) → length (behind_digits format) ≤ length format
unfolding behind_digits
behind_digits-length [] = omega arith
behind_digits-length (c ∷ format) = ground (arith, behind_digits-length format)

length_modifier-length : (format : List ℕ) → length (length_modifier format).1 ≤ length format
unfolding length_modifier
length_modifier-length [] = omega arith
length_modifier-length (c ∷ []) = ground arith
length_modifier-length (c ∷ d ∷ format) = ground arith

module _ {D : Type 0} where
  -- What is left is no longer than the bound.
  abbrev Within : ℕ → Option (Rest D) → Type 0
  Within n none = Unit {0}
  Within n (some w) = length w.format ≤ n

  Within-if :
      (n : ℕ) (b : Bool) (o p : Option (Rest D))
      → Within n o
      → Within n p
      → Within n (if b then o else p)
  Within-if n true o p h k = h
  Within-if n false o p h k = k

  star_width-Within :
      (n : ℕ) (fl : Flags) (format : List ℕ) (o : Option ((Bool × ℕ) × List (Arg D)))
      → length format ≤ n
      → Within n (star_width fl format o)
  star_width-Within n fl format none h = tt
  star_width-Within n fl format (some ((false, v), args)) h = h
  star_width-Within n fl format (some ((true, v), args)) h = Within-if n (v == 2147483648) _ _ tt h

  given_width-Within :
      (fl : Flags) (format : List ℕ) (args : List (Arg D))
      → Within (length format) (given_width fl format args)
  unfolding given_width
  given_width-Within fl [] args = omega arith
  given_width-Within fl (c ∷ format) args =
      Within-if _ (c == b'*') _ _ (star_width-Within _ fl format (star_arg args) (omega arith))
        (behind_digits-length (c ∷ format))

  star_precision-Within :
      (n : ℕ) (fl : Flags) (format : List ℕ) (o : Option ((Bool × ℕ) × List (Arg D)))
      → length format ≤ n
      → Within n (star_precision fl format o)
  star_precision-Within n fl format none h = tt
  star_precision-Within n fl format (some ((false, v), args)) h = h
  star_precision-Within n fl format (some ((true, v), args)) h = h

  given_precision-Within :
      (fl : Flags) (format : List ℕ) (args : List (Arg D))
      → Within (length format) (given_precision fl format args)
  unfolding given_precision
  given_precision-Within fl [] args = omega arith
  given_precision-Within fl (c ∷ []) args =
      Within-if _ (c == b'.') _ _ (omega (arith, behind_digits-length [])) (omega arith)
  given_precision-Within fl (c ∷ d ∷ format) args =
      Within-if _ (c == b'.') _ _
        (Within-if _ (d == b'*') _ _
          (star_precision-Within _ fl format (star_arg args) (omega arith))
          (omega (arith, behind_digits-length (d ∷ format))))
        (omega arith)

  abbrev Leaves : ℕ → Option (Part D) → Type 0
  Leaves n none = Unit {0}
  Leaves n (some p) = length p.1.0 ≤ n

  Leaves-if :
      (n : ℕ) (b : Bool) (o p : Option (Part D))
      → Leaves n o
      → Leaves n p
      → Leaves n (if b then o else p)
  Leaves-if n true o p h k = h
  Leaves-if n false o p h k = k

  module _ (error_text : List ℕ) where
    last-Leaves :
        (n width : ℕ) (p : Rest D) (r : Length × List ℕ)
        → length r.1 ≤ n
        → Leaves n (last_text error_text width p r)
    last-Leaves n width p (len, []) h = omega arith
    last-Leaves n width p (len, c ∷ rest) h = field_cases (field_text error_text _ p.args)
      where
        field_cases :
            (o : Option (List ℕ × List (Arg D)))
            → Leaves n
                (elim o [ none ↦ none | some (piece, args') ↦ some ((piece, true), (rest, args')) ])
        field_cases none = tt
        field_cases (some (piece, args')) = omega (arith, h)

    parsed-Leaves :
        (n k : ℕ) (o : Option (Rest D)) (t : Rest D → Option (Part D))
        → Within k o
        → ((w : Rest D) → length w.format ≤ k → Leaves n (t w))
        → Leaves n (elim o [ none ↦ none | some w ↦ t w ])
    parsed-Leaves n k none t h f = tt
    parsed-Leaves n k (some w) t h f = f w h

    spec-Leaves :
        (format : List ℕ) (args : List (Arg D))
        → Leaves (length format) (spec_text error_text format args)
    unfolding spec_text
    spec-Leaves format args =
        let fl = given_flags (flag_run format) in
        let format₁ = behind_flags format in
        parsed-Leaves _ _ (given_width fl format₁ args) _ (given_width-Within fl format₁ args)
          (λ w h.
            parsed-Leaves _ _ (given_precision w.flags w.format w.args) _
              (given_precision-Within w.flags w.format w.args)
              (λ p k.
                last-Leaves _ w.number p (length_modifier p.format)
                  (omega (arith, length_modifier-length p.format, behind_flags-length format))))

    part-Leaves :
        (c : ℕ) (format : List ℕ) (args : List (Arg D))
        → Leaves (length format) (part_text error_text c format args)
    unfolding part_text percent_text
    part-Leaves c [] args = Leaves-if _ (c == b'%') _ _ (omega arith) (omega arith)
    part-Leaves c (d ∷ format) args =
        Leaves-if _ (c == b'%') _ _
          (Leaves-if _ (d == b'%') _ _ (omega arith) (spec-Leaves (d ∷ format) args)) (omega arith)

    abbrev after : (j : ℕ) → Option (Part D) → Option (List ℕ)
    after j o = elim o [
      | none ↦ none
      | some ((piece, more), (format', args')) ↦ elim more [
        | true ↦ put_front piece (rendered error_text j format' args')
        | false ↦ some piece
      ]
    ]

    -- More fuel than the format is long gives the same text.
    pub rendered-enough :
        (j k : ℕ) (format : List ℕ) (args : List (Arg D))
        → length format < j
        → length format < k
        → rendered error_text j format args ≡ rendered error_text k format args
    unfolding rendered
    rendered-enough zero k format args h h' = absurd (omega arith)
    rendered-enough (suc j) zero format args h h' = absurd (omega arith)
    rendered-enough (suc j) (suc k) [] args h h' = refl
    rendered-enough (suc j) (suc k) (c ∷ format) args h h' =
        rest_cases (part_text error_text c format args) (part-Leaves c format args)
          (λ f a le. rendered-enough j k f a (omega arith) (omega arith))
      where
        rest_cases :
            (o : Option (Part D))
            → Leaves (length format) o
            → ((f : List ℕ) (a : List (Arg D))
                → length f ≤ length format
                → rendered error_text j f a ≡ rendered error_text k f a)
            → after j o ≡ after k o
        rest_cases none h ih = refl
        rest_cases (some ((piece, false), rest)) h ih = refl
        rest_cases (some ((piece, true), (format', args'))) le ih =
            ap (put_front piece) (ih format' args' le)
