-- ===== src/Format/Driver.antt =====
-- `vsnprintf` itself. What formats a double and what `strerror(errno)` says are parameters: there
-- are no floating-point numbers here.
use aic_lib.Base.{
  ℕ, zero, suc, ◌+◌, ◌-◌, ◌/◌, ◌%◌, ◌^◌, Bool, true, false, ◌&&◌, ◌||◌, ◌==◌, ltb, leb, min,
  if◌then◌else◌, List, [], ◌∷◌, Option, none, some,
}
use aic_lib.Memory.{Ptr, null, Cmd, pure, fault, stuck, ◌>>=◌, ◌>>◌, store}
use aic_lib.Format.Output.{State, output_char, output_padding}
use aic_lib.Format.Number.{int_max}
use aic_lib.Format.Integer.{Flags, format_integer, format_string, format_pointer}
use aic_lib.Format.Field.{
  Arg, word, text, real, no_flags, parse_flags, Rest, parse_width, parse_precision, Length,
  parse_length, bits,
}

-- The parameters: the formatter of doubles, the text of the current error, and what the array
-- `num_buf` holds at each call.
pub record Env (D : Type 0) : Type 0 where
  pub format_float : State → D → ℕ → Flags → ℕ → ℕ → Cmd State
  pub error_text : List ℕ
  pub junk : List ℕ

-- A conversion, once it is parsed.
pub record Field : Type 0 where
  pub flags : Flags
  pub width : ℕ
  pub precision : ℕ
  pub length : Length
  pub spec : ℕ

-- `*count_ptr = (int)state.total`, in the byte order of the supported machines.
unfoldable pub store_int : Ptr → ℕ → Cmd (Unit {0})
store_int p v = do
  store p (v % 256)
  store (p + 1) (v / 2 ^ 8 % 256)
  store (p + 2) (v / 2 ^ 16 % 256)
  store (p + 3) (v / 2 ^ 24 % 256)

-- The argument as a signed number of so many bits: its magnitude, and whether it is negative.
abbrev pub magnitude : ℕ → ℕ → ℕ
magnitude b w = if ltb (w % 2 ^ b) (2 ^ (b - 1)) then w % 2 ^ b else 2 ^ b - w % 2 ^ b

abbrev pub is_negative : ℕ → ℕ → Bool
is_negative b w = if ltb (w % 2 ^ b) (2 ^ (b - 1)) then false else true

abbrev pub is_one_of : ℕ → List ℕ → Bool
is_one_of c [] = false
is_one_of c (x ∷ xs) = (c == x) || is_one_of c xs

-- The terminator, if there is room for one.
unfoldable pub terminate : State → Cmd (Unit {0})
terminate st =
    if (st.buffer == null) || (st.size == 0)
    then pure tt
    else store (st.buffer + (if ltb st.pos st.size then st.pos else st.size - 1)) 0

abbrev pub start : Ptr → ℕ → State
start str size = record {
  buffer = str;
  size = size;
  pos = 0;
  total = 0;
  overflow = false;
  error = false;
}

module _ {D : Type 0} (env : Env D) where
  -- The conversions that take a machine word.
  unfoldable pub convert_word : State → Field → ℕ → Cmd State
  convert_word st f w =
      if is_one_of f.spec (b'd' ∷ b'i' ∷ [])
      then format_integer env.junk st (magnitude (bits f.length) w) 10 f.flags f.width f.precision
          true (is_negative (bits f.length) w)
      else if is_one_of f.spec (b'u' ∷ b'o' ∷ b'x' ∷ b'X' ∷ [])
      then format_integer env.junk st (w % 2 ^ bits f.length)
          (if f.spec == b'u' then 10 else if f.spec == b'o' then 8 else 16) f.flags f.width
          f.precision false false
      else if f.spec == b'c'
      then (let pad = if ltb 1 f.width then f.width - 1 else 0 in
          if f.flags.left
          then (do st₁ ← output_char st (w % 256); output_padding st₁ b' ' pad)
          else (do st₁ ← output_padding st b' ' pad; output_char st₁ (w % 256)))
      else if f.spec == b'p'
      then format_pointer env.junk st (w % 2 ^ 64) f.flags f.width
      else if w % 2 ^ 64 == null
      then pure st
      else (do store_int (w % 2 ^ 64) (st.total % 2 ^ 32); pure st)

  -- The conversions with no argument: `%m`, and any other byte, which is shown.
  unfoldable pub convert_none : State → Field → Cmd State
  convert_none st f =
      if f.spec == b'm'
      then format_string st (some env.error_text) f.flags f.width f.precision
      else (do
        st₁ ← output_char st b'%'
        if f.spec == b'%' then pure st₁ else output_char st₁ f.spec)

  unfoldable pub take_word : State → Field → List (Arg D) → Cmd (State × List (Arg D))
  take_word st f (word w ∷ rest) = do st' ← convert_word st f w; pure (st', rest)
  take_word st f _ = λ _. fault

  unfoldable pub take_text : State → Field → List (Arg D) → Cmd (State × List (Arg D))
  take_text st f (text t ∷ rest) = do
    st' ← format_string st t f.flags f.width f.precision
    pure (st', rest)
  take_text st f _ = λ _. fault

  unfoldable pub take_real : State → Field → List (Arg D) → Cmd (State × List (Arg D))
  take_real st f (real d ∷ rest) = do
    st' ← env.format_float st d f.spec f.flags f.width f.precision
    pure (st', rest)
  take_real st f _ = λ _. fault

  -- The `switch (spec)`: what kind of argument the conversion takes.
  unfoldable pub convert : State → Field → List (Arg D) → Cmd (State × List (Arg D))
  convert st f args =
      if is_one_of f.spec (b'd' ∷ b'i' ∷ b'u' ∷ b'o' ∷ b'x' ∷ b'X' ∷ b'c' ∷ b'p' ∷ b'n' ∷ [])
      then take_word st f args
      else if f.spec == b's'
      then take_text st f args
      else if is_one_of f.spec (b'f' ∷ b'F' ∷ b'e' ∷ b'E' ∷ b'g' ∷ b'G' ∷ b'a' ∷ b'A' ∷ [])
      then take_real st f args
      else (do st' ← convert_none st f; pure (st', args))

  -- What a round of the loop leaves: the state, whether the loop goes on, the format, the arguments.
  abbrev Round : Type 0
  Round = (State × Bool) × (List ℕ × List (Arg D))

  -- The conversion character. The format may end before it.
  unfoldable pub convert_field : State → ℕ → Rest D → Length × List ℕ → Cmd Round
  convert_field st width p (len, []) = pure ((st, false), ([], p.args))
  convert_field st width p (len, c ∷ rest) = do
    let upper = if leb b'A' c && leb c b'Z' then true else p.flags.uppercase
    (st', args') ←
        convert st
          (record {
            flags = record (p.flags) { uppercase = upper };
            width = width;
            precision = p.number;
            length = len;
            spec = c;
          })
          p.args
    pure ((st', true), (rest, args'))

  -- One conversion, from behind the `%` on.
  unfoldable pub field_step : State → List ℕ → List (Arg D) → Cmd Round
  field_step st format args =
      let (fl, format₁) = parse_flags format no_flags in
      elim (parse_width fl format₁ args) [
        | none ↦ λ _. fault
        | some w ↦ elim (parse_precision w.flags w.format w.args) [
          | none ↦ λ _. fault
          | some p ↦ convert_field st w.number p (parse_length p.format)
        ]
      ]

  unfoldable pub percent : State → List ℕ → List (Arg D) → Cmd Round
  percent st [] args = do st' ← output_char st b'%'; pure ((st', false), ([], args))
  percent st (d ∷ rest) args =
      if d == b'%'
      then (do st' ← output_char st b'%'; pure ((st', true), (rest, args)))
      else field_step st (d ∷ rest) args

  unfoldable pub format_round : State → ℕ → List ℕ → List (Arg D) → Cmd Round
  format_round st c format args =
      if c == b'%'
      then percent st format args
      else (do st' ← output_char st c; pure ((st', true), (format, args)))

  -- `while (format[i] != '\0')`. A round takes one byte of the format at least.
  unfoldable pub format_loop : ℕ → State → List ℕ → List (Arg D) → Cmd State
  format_loop zero st format args = stuck
  format_loop (suc k) st [] args = pure st
  format_loop (suc k) st (c ∷ format) args = do
    ((st', more), (format', args')) ← format_round st c format args
    if more then format_loop k st' format' args' else pure st'

  -- A `NULL` format is the empty one.
  unfoldable pub vsnprintf : ℕ → Ptr → ℕ → Option (List ℕ) → List (Arg D) → Cmd ℕ
  vsnprintf k str size format args = do
    st ← format_loop k (start str size) (elim format [ none ↦ [] | some f ↦ f ]) args
    terminate st
    pure (min st.total int_max)
