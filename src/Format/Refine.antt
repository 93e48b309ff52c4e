-- ===== src/Format/Refine.antt =====
-- `vsnprintf` sends what its format and arguments stand for.
use aic_lib.Base.{
  ℕ, zero, suc, ◌<◌, ◌≡◌, ◌≢◌, refl, arith, Bool, true, false, if◌then◌else◌, List, [], ◌∷◌, ◌++◌,
  Option, none, some, length, All, ◌∙◌, sym, ap,
}
use aic_lib.Memory.{Memory, Cmd, pure, follow, ◌>>=◌}
use aic_lib.Format.Output.{State}
use aic_lib.Format.Field.{Arg}
use aic_lib.Format.Driver.{Env, format_loop}
use aic_lib.Format.Emit.{emit, emit-append, follow-cong, follow_assoc}
use aic_lib.Format.Text.{part_text, put_front, rendered, Part}
use aic_lib.Format.Render.{follow_done}
use aic_lib.Format.Conversions.{Fits, Fits-some, Fits-none}
use aic_lib.Format.Parts.{SendsPart, FitsPart, part-FitsPart}
use aic_lib.Memory.Ends
use aic_lib.Memory.Ends.{Ends, ends}
use aic_lib.Memory.Region.{Mapped}
use aic_lib.Format.Fuel.{rendered-enough}
use aic_lib.Format.Driver.{start, vsnprintf}
use aic_lib.Format.Emit.{IsBuffer, emit-IsEmitted}
use aic_lib.Format.Bounds.{IsResult, terminate-IsResult, fresh-IsEmitted}

module _ {D : Type 0} (env : Env D) where
  -- A piece is sent, then what the rest of the format gives.
  joined :
      (more : Bool) (piece : List ℕ) (rest : List ℕ × List (Arg D)) (o : Option (List ℕ))
      (f : State → Cmd ((State × Bool) × (List ℕ × List (Arg D))))
      (g : State → List ℕ → List (Arg D) → Cmd State)
      → SendsPart env f ((piece, more), rest)
      → Fits o (λ st. g st rest.0 rest.1)
      → Fits
          (elim more [ true ↦ put_front piece o | false ↦ some piece ])
          (λ st. f st >>= (λ ((st', more'), (format', args')).
            if more' then g st' format' args' else pure st'))
  joined true piece rest none f g h k = Fits-none _
  joined true piece rest (some ys) f g h k = Fits-some (piece ++ ys) _ (λ st m.
      ap
        (λ o.
          follow {B = State} o
            (λ ((st', more'), (format', args')). if more' then g st' format' args' else pure st'))
        (h st m)
      ∙ follow_assoc (emit st piece m) _ _
      ∙ follow-cong (emit st piece m) _ _ (k ys refl)
      ∙ sym (emit-append st piece ys m))
  joined false piece rest o f g h k = Fits-some piece _ (λ st m.
      ap
        (λ o.
          follow {B = State} o
            (λ ((st', more'), (format', args')). if more' then g st' format' args' else pure st'))
        (h st m)
      ∙ follow_assoc (emit st piece m) _ _
      ∙ follow_done (emit st piece m))

  joined_part :
      (o : Option (Part D)) (r : List ℕ → List (Arg D) → Option (List ℕ))
      (f : State → Cmd ((State × Bool) × (List ℕ × List (Arg D))))
      (g : State → List ℕ → List (Arg D) → Cmd State)
      → FitsPart env o f
      → ((format : List ℕ) (args : List (Arg D)) → Fits (r format args) (λ st. g st format args))
      → Fits
          (elim o [
            | none ↦ none
            | some ((piece, more), (format', args')) ↦ elim more [
              | true ↦ put_front piece (r format' args')
              | false ↦ some piece
            ]
          ])
          (λ st. f st >>= (λ ((st', more'), (format', args')).
            if more' then g st' format' args' else pure st'))
  joined_part none r f g h k = Fits-none _
  joined_part (some ((piece, more), (format', args'))) r f g h k =
      joined more piece (format', args') (r format' args') f g (h _ refl) (k format' args')

  pub format_loop-Fits :
      (error_ok : All (λ c. c ≢ 0) env.error_text)
      → (k : ℕ) (format : List ℕ) (args : List (Arg D))
      → Fits (rendered env.error_text k format args) (λ st. format_loop env k st format args)
  unfolding format_loop rendered emit
  format_loop-Fits error_ok zero format args = Fits-none _
  format_loop-Fits error_ok (suc k) [] args = Fits-some [] _ (λ st m. refl)
  format_loop-Fits error_ok (suc k) (c ∷ format) args =
      joined_part (part_text env.error_text c format args) (rendered env.error_text k) _
        (format_loop env k) (part-FitsPart env error_ok c format args) (format_loop-Fits error_ok k)

  -- On a format and arguments that stand for a text (no double is formatted, no decimal digits
  -- are grouped, no `%n` stores, no width is `INT_MIN`), and a buffer of `size` mapped bytes, at
  -- least one and less than 2 ^ 64, that is not at the null pointer, `vsnprintf` ends without a
  -- fault, with more fuel than the format is long: the buffer holds as much of the text as fits
  -- with a terminator behind it, nothing outside the buffer is written, and the result is the
  -- length of the whole text modulo 2 ^ 64, or `INT_MAX` if that is less.
  pub vsnprintf-rendered :
      (k buf size : ℕ) (format : List ℕ) (args : List (Arg D)) (xs : List ℕ) (m : Memory)
      → IsBuffer buf size
      → Mapped m buf size
      → All (λ c. c ≢ 0) env.error_text
      → rendered env.error_text (suc (length format)) format args ≡ some xs
      → length format < k
      → Ends (IsResult buf size xs m) (vsnprintf env k buf size (some format) args m)
  unfolding vsnprintf
  vsnprintf-rendered k buf size format args xs m ok h error_ok e lt =
      let same =
        rendered-enough env.error_text k (suc (length format)) format args lt (omega arith) in
      rw (format_loop-Fits error_ok k format args xs (same ∙ e) (start buf size) m) (
        Ends.and_then (emit-IsEmitted ok [] xs (start buf size) m (fresh-IsEmitted buf size m h))
          (λ st m' r. Ends.and_then (terminate-IsResult ok xs st m' r) (λ _ m'' q. ends q)))
