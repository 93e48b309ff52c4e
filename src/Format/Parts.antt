-- ===== src/Format/Parts.antt =====
-- A part of a format, from one byte or conversion to the next: its text is sent.
use aic_lib.Base.{
  ℕ, ◌≡◌, ◌≢◌, refl, Bool, true, false, ◌==◌, if◌then◌else◌, List, [], ◌∷◌, Option, none, some, All,
  ◌∙◌, ap, inl, inr, Bool-cases,
}
use aic_lib.Memory.{Memory, Cmd, pure, fault, follow, ◌>>=◌}
use aic_lib.Format.Output.{State, output_char}
use mathlib.Core.Path.{subst}
use aic_lib.Format.Field.{Arg, word, text, real, Rest, Length}
use aic_lib.Format.Meaning.{
  flag_run, behind_flags, given_flags, given_width, given_precision, length_modifier,
}
use aic_lib.Format.Agreement.{parse_flags-given_flags, parse_length-length_modifier}
use aic_lib.Format.Agreement.Width.{parse_width-given_width, parse_precision-given_precision}
use aic_lib.Format.Driver.{
  Env, Field, is_one_of, convert_none, take_word, take_text, convert, convert_field, field_step,
  percent, format_round,
}
use aic_lib.Format.Emit.{emit, follow_assoc}
use aic_lib.Format.Text.{
  string_text, word_text, word_arg, text_arg, take_one, field_text, none_text, last_text, spec_text,
  percent_text, part_text, shown_string, is_text, Part,
}
use aic_lib.Format.Render.{Sends, follow_done, Sends-then, Sends-char, format_string-Sends}
use aic_lib.Format.Conversions.{Fits, is_text_sound, get_some, none_not_some, convert_word-Fits}

module _ {D : Type 0} (env : Env D) where
  -- A part: the piece is sent, and what goes on is as in the text.
  abbrev pub SendsPart : (State → Cmd ((State × Bool) × (List ℕ × List (Arg D)))) → Part D → Type 0
  SendsPart f ((piece, more), rest) =
      (st : State) (m : Memory)
      → f st m ≡ follow (emit st piece m) (λ st'. pure ((st', more), rest))

  abbrev pub FitsPart :
      Option (Part D) → (State → Cmd ((State × Bool) × (List ℕ × List (Arg D)))) → Type 0
  FitsPart o f = (p : Part D) → o ≡ some p → SendsPart f p

  FitsPart-some :
      (q : Part D) (f : State → Cmd ((State × Bool) × (List ℕ × List (Arg D))))
      → SendsPart f q
      → FitsPart (some q) f
  FitsPart-some q f h p e = subst (SendsPart f) (get_some e) h

  FitsPart-none : (f : State → Cmd ((State × Bool) × (List ℕ × List (Arg D)))) → FitsPart none f
  FitsPart-none f p e = absurd (none_not_some e)

  FitsPart-if :
      (b : Bool) (o p : Option (Part D))
      (f g : State → Cmd ((State × Bool) × (List ℕ × List (Arg D))))
      → FitsPart o f
      → FitsPart p g
      → FitsPart (if b then o else p) (λ st. if b then f st else g st)
  FitsPart-if true o p f g h k = h
  FitsPart-if false o p f g h k = k

  -- A conversion with its arguments.
  abbrev FitsArgs : Option (List ℕ × List (Arg D)) → (State → Cmd (State × List (Arg D))) → Type 0
  FitsArgs o f =
      (xs : List ℕ) (args : List (Arg D))
      → o ≡ some (xs, args)
      → (st : State) (m : Memory) → f st m ≡ follow (emit st xs m) (λ st'. pure (st', args))

  FitsArgs-if :
      (b : Bool) (o p : Option (List ℕ × List (Arg D))) (f g : State → Cmd (State × List (Arg D)))
      → FitsArgs o f
      → FitsArgs p g
      → FitsArgs (if b then o else p) (λ st. if b then f st else g st)
  FitsArgs-if true o p f g h k = h
  FitsArgs-if false o p f g h k = k

  FitsArgs-none : (f : State → Cmd (State × List (Arg D))) → FitsArgs none f
  FitsArgs-none f xs args e = absurd (none_not_some e)

  FitsArgs-some :
      (ys : List ℕ) (rest : List (Arg D)) (f : State → Cmd State)
      → Sends f ys
      → FitsArgs (some (ys, rest)) (λ st. f st >>= (λ st'. pure (st', rest)))
  FitsArgs-some ys rest f h xs args e st m =
      subst
        (λ (p : List ℕ × List (Arg D)).
          follow {B = State × List (Arg D)} (f st m) (λ st'. pure (st', rest))
          ≡ follow {B = State × List (Arg D)} (emit st p.0 m) (λ st'. pure (st', p.1)))
        (get_some e)
        (ap (λ o. follow {B = State × List (Arg D)} o (λ st'. pure (st', rest))) (h st m))

  take_one-Fits :
      (o : Option (List ℕ)) (rest : List (Arg D)) (f : State → Cmd State)
      → Fits o f
      → FitsArgs (take_one env.error_text o rest) (λ st. f st >>= (λ st'. pure (st', rest)))
  take_one-Fits none rest f h = FitsArgs-none _
  take_one-Fits (some ys) rest f h = FitsArgs-some ys rest f (h ys refl)

  take_word-Fits :
      (f : Field) (args : List (Arg D))
      → FitsArgs (word_arg env.error_text f args) (λ st. take_word env st f args)
  unfolding take_word
  take_word-Fits f (word w ∷ rest) =
      take_one-Fits (word_text f w) rest _ (convert_word-Fits env f w)
  take_word-Fits f (text t ∷ rest) = FitsArgs-none _
  take_word-Fits f (real d ∷ rest) = FitsArgs-none _
  take_word-Fits f [] = FitsArgs-none _

  take_text-Fits :
      (f : Field) (args : List (Arg D))
      → FitsArgs (text_arg env.error_text f args) (λ st. take_text env st f args)
  unfolding take_text
  take_text-Fits f (text t ∷ rest) = text_cases (is_text (shown_string t)) refl
    where
      text_cases :
          (b : Bool)
          → is_text (shown_string t) ≡ b
          → FitsArgs
              (if b
                then some (string_text f.flags f.width f.precision (shown_string t), rest)
                else none)
              (λ st. take_text env st f (text t ∷ rest))
      text_cases true e =
          FitsArgs-some _ rest _
            (format_string-Sends f.flags f.width t f.precision (is_text_sound (shown_string t) e))
      text_cases false e = FitsArgs-none _
  take_text-Fits f (word w ∷ rest) = FitsArgs-none _
  take_text-Fits f (real d ∷ rest) = FitsArgs-none _
  take_text-Fits f [] = FitsArgs-none _

  module _ (error_ok : All (λ c. c ≢ 0) env.error_text) where
    convert_none-Sends :
        (f : Field) → Sends (λ st. convert_none env st f) (none_text env.error_text f)
    unfolding convert_none
    convert_none-Sends f st m = elim (Bool-cases (f.spec == b'm')) [
      | inl message ↦
          rw message
            (format_string-Sends f.flags f.width (some env.error_text) f.precision error_ok st m)
      | inr other ↦ rw other (elim (Bool-cases (f.spec == b'%')) [
        | inl alone ↦ rw alone (follow_done (output_char st b'%' m) ∙ Sends-char b'%' st m)
        | inr unknown ↦ rw unknown (
            Sends-then (λ s. output_char s b'%') (λ s. output_char s f.spec) (b'%' ∷ [])
              (f.spec ∷ []) (Sends-char b'%') (Sends-char f.spec) st m)
      ])
    ]

    convert-Fits :
        (f : Field) (args : List (Arg D))
        → FitsArgs (field_text env.error_text f args) (λ st. convert env st f args)
    unfolding convert convert_none field_text
    convert-Fits f args =
        FitsArgs-if
          (is_one_of f.spec (b'd' ∷ b'i' ∷ b'u' ∷ b'o' ∷ b'x' ∷ b'X' ∷ b'c' ∷ b'p' ∷ b'n' ∷ [])) _ _
          _ _ (take_word-Fits f args)
          (FitsArgs-if (f.spec == b's') _ _ _ _ (take_text-Fits f args) (
            FitsArgs-if
              (is_one_of f.spec (b'f' ∷ b'F' ∷ b'e' ∷ b'E' ∷ b'g' ∷ b'G' ∷ b'a' ∷ b'A' ∷ [])) _ _ _
              _ (FitsArgs-none _)
              (FitsArgs-some (none_text env.error_text f) args _ (convert_none-Sends f))))

    -- The parts of a format.
    going_on :
        (rest : List ℕ) (o : Option (List ℕ × List (Arg D)))
        (f : State → Cmd (State × List (Arg D)))
        → FitsArgs o f
        → FitsPart
            (elim o [ none ↦ none | some (piece, args') ↦ some ((piece, true), (rest, args')) ])
            (λ st. f st >>= (λ (st', args'). pure ((st', true), (rest, args'))))
    going_on rest none f h = FitsPart-none _
    going_on rest (some (piece, args')) f h =
        FitsPart-some ((piece, true), (rest, args')) _
          (λ st m.
            ap
              (λ o.
                follow {B = (State × Bool) × (List ℕ × List (Arg D))} o
                  (λ (st', args''). pure ((st', true), (rest, args''))))
              (h piece args' refl st m)
            ∙ follow_assoc (emit st piece m) _ _)

    last-FitsPart :
        (width : ℕ) (p : Rest D) (r : Length × List ℕ)
        → FitsPart (last_text env.error_text width p r) (λ st. convert_field env st width p r)
    unfolding convert_field emit
    last-FitsPart width p (len, []) = FitsPart-some (([], false), ([], p.args)) _ (λ st m. refl)
    last-FitsPart width p (len, c ∷ rest) =
        going_on rest (field_text env.error_text _ p.args) _ (convert-Fits _ p.args)

    -- A part that needs what was parsed.
    parsed-FitsPart :
        (o : Option (Rest D)) (t : Rest D → Option (Part D))
        (f : Rest D → State → Cmd ((State × Bool) × (List ℕ × List (Arg D))))
        → ((w : Rest D) → FitsPart (t w) (f w))
        → FitsPart
            (elim o [ none ↦ none | some w ↦ t w ])
            (λ st. elim o [ none ↦ λ _. fault | some w ↦ f w st ])
    parsed-FitsPart none t f h = FitsPart-none _
    parsed-FitsPart (some w) t f h = h w

    spec-FitsPart :
        (format : List ℕ) (args : List (Arg D))
        → FitsPart (spec_text env.error_text format args) (λ st. field_step env st format args)
    unfolding field_step spec_text
    spec-FitsPart format args =
        let flags = given_flags (flag_run format) in
        let format₁ = behind_flags format in
        rw
          (
            field_step,
            spec_text,
            parse_flags-given_flags format,
            parse_width-given_width flags format₁ args,
          )
          (parsed-FitsPart (given_width flags format₁ args) _ _ (λ w.
            rw (parse_precision-given_precision w.flags w.format w.args) (
              parsed-FitsPart (given_precision w.flags w.format w.args) _ _ (λ p.
                rw (parse_length-length_modifier p.format)
                  (last-FitsPart w.number p (length_modifier p.format))))))

    char-SendsPart :
        (c : ℕ) (more : Bool) (rest : List ℕ × List (Arg D))
        → SendsPart
            (λ st. output_char st c >>= (λ st'. pure ((st', more), rest)))
            ((c ∷ [], more), rest)
    char-SendsPart c more rest st m =
        ap
          (λ o.
            follow {B = (State × Bool) × (List ℕ × List (Arg D))} o
              (λ st'. pure ((st', more), rest)))
          (Sends-char c st m)

    pub part-FitsPart :
        (c : ℕ) (format : List ℕ) (args : List (Arg D))
        → FitsPart
            (part_text env.error_text c format args)
            (λ st. format_round env st c format args)
    unfolding format_round part_text percent percent_text
    part-FitsPart c [] args =
        FitsPart-if (c == b'%') _ _ _ _ (FitsPart-some _ _ (char-SendsPart b'%' false ([], args)))
          (FitsPart-some _ _ (char-SendsPart c true ([], args)))
    part-FitsPart c (d ∷ format) args =
        FitsPart-if (c == b'%') _ _ _ _
          (FitsPart-if (d == b'%') _ _ _ _
            (FitsPart-some _ _ (char-SendsPart b'%' true (format, args)))
            (spec-FitsPart (d ∷ format) args))
          (FitsPart-some _ _ (char-SendsPart c true (d ∷ format, args)))
