-- ===== src/Format/Bounds.antt =====
-- `vsnprintf` and the size of its buffer, and the array `num_buf` of `format_integer`.
use aic_lib.Base.{
  ℕ, zero, suc, ◌+◌, ◌-◌, ◌%◌, ◌^◌, ◌<◌, ◌≡◌, ◌≢◌, refl, arith, false, ◌==◌, ◌||◌, ltb, min,
  if◌then◌else◌, List, [], ◌∷◌, none, some, length, get_elem?, All, ap, ◌∙◌,
}
use aic_lib.Memory.{null, Memory, fault}
use aic_lib.Memory.Region.{
  Mapped, SameOutside, mapped_byte, store-done, store-fault, write_same, write_other,
}
use aic_lib.Memory.Ends
use aic_lib.Memory.Ends.{Ends, ends}
use aic_lib.Format.Output.{State, output_char}
use aic_lib.Format.Number.{int_max}
use aic_lib.Format.Field.{Arg}
use aic_lib.Format.Driver.{Env, format_round, format_loop, terminate, start, vsnprintf}
use aic_lib.Format.Emit.{emit, IsEmitted, IsBuffer, emit-IsEmitted, follow-cong, follow_assoc}

-- What a call leaves that was to send `xs` to a buffer of `size` bytes.
pub record IsResult (buf size : ℕ) (xs : List ℕ) (m₀ : Memory) (r : ℕ) (m : Memory) : Type 0 where
  pub kept : (i : ℕ) → i < min (length xs) (size - 1) → m (buf + i) ≡ get_elem? xs i
  pub terminated : m (buf + min (length xs) (size - 1)) ≡ some 0
  pub same : SameOutside buf size m₀ m
  pub result : r ≡ min (length xs % 2 ^ 64) int_max

module _ {D : Type 0} (env : Env D) where
  -- A format with no `%` is sent as it is.
  format_loop-plain :
      (k : ℕ) (st : State) (format : List ℕ) (args : List (Arg D)) (m : Memory)
      → All (λ c. c ≢ b'%') format
      → length format < k
      → format_loop env k st format args m ≡ emit st format m
  unfolding format_loop format_round emit
  format_loop-plain zero st format args m plain lt = absurd (omega arith)
  format_loop-plain (suc k) st [] args m plain lt = refl
  format_loop-plain (suc k) st (c ∷ format) args m plain lt =
      let go : (c == b'%') ≡ false = ground (arith, plain.0) in
      rw go (
        follow_assoc (output_char st c m) _ _
        ∙ follow-cong (output_char st c m) _ _
            (λ st' m'. format_loop-plain k st' format args m' plain.1 (omega arith)))

module _ {buf size : ℕ} (ok : IsBuffer buf size) {m₀ : Memory} where
  pub terminate-IsResult :
      (xs : List ℕ) (st : State) (m : Memory)
      → IsEmitted buf size xs m₀ st m
      → Ends (λ _. IsResult buf size xs m₀ (min st.total int_max)) (terminate st m)
  unfolding terminate
  terminate-IsResult xs st m e =
      let n = min (length xs) (size - 1) in
      let (o, to) =
        mapped_byte m (buf + n) (e.mapped (buf + n) (omega arith) (omega (arith, ok.pos))) in
      let given : ((st.buffer == null) || (st.size == 0)) ≡ false =
        ground (arith, e.buffer_is, e.size_is, ok.ne_null, ok.pos) in
      let at : st.buffer + (if ltb st.pos st.size then st.pos else st.size - 1) ≡ buf + n =
        ground (arith, e.buffer_is, e.pos_is, e.size_is, ok.pos) in
      rw (given, at, store-done m (buf + n) 0 to)
        (ends (record {
          kept = λ i lt. write_other m (buf + n) (buf + i) 0 (omega arith) ∙ e.kept i lt;
          terminated = write_same m (buf + n) 0;
          same =
              λ q out. write_other m (buf + n) q 0 (omega (arith, ok.pos)) ∙ e.same q (omega arith);
          result = ap (λ t. min t int_max) e.total_is;
        }))

-- A buffer that has been sent nothing.
pub fresh-IsEmitted :
    (buf size : ℕ) (m : Memory) → Mapped m buf size → IsEmitted buf size [] m (start buf size) m
fresh-IsEmitted buf size m h = record {
  buffer_is = refl;
  size_is = refl;
  pos_is = omega arith;
  total_is = refl;
  kept = λ i lt. absurd (omega arith);
  same = λ q out. refl;
  mapped = h;
}

-- On a format with no `%` and a buffer of `size` mapped bytes, `vsnprintf` ends without a fault: the
-- buffer holds as much of the format as fits with a terminator behind it, nothing outside the
-- buffer is written, and the result is the length of the whole text, or `INT_MAX` if that is less.
pub vsnprintf-IsResult :
    {D : Type 0} (env : Env D) (k buf size : ℕ) (format : List ℕ) (args : List (Arg D)) (m : Memory)
    → IsBuffer buf size
    → Mapped m buf size
    → All (λ c. c ≢ b'%') format
    → length format < k
    → Ends (IsResult buf size format m) (vsnprintf env k buf size (some format) args m)
unfolding vsnprintf
vsnprintf-IsResult env k buf size format args m ok h plain lt =
    rw (format_loop-plain env k (start buf size) format args m plain lt) (
      Ends.and_then (emit-IsEmitted ok [] format (start buf size) m (fresh-IsEmitted buf size m h))
        (λ st m' e. Ends.and_then (terminate-IsResult ok format st m' e) (λ _ m'' r. ends r)))

-- With a size of 0 the room wraps to 2 ^ 64 - 1, so that the first byte of any format that does
-- not begin with `%` is stored to a buffer that is not `NULL`; where that byte is not mapped, the
-- call faults.
pub vsnprintf_zero_size :
    {D : Type 0} (env : Env D) (k buf c : ℕ) (format : List ℕ) (args : List (Arg D)) (m : Memory)
    → buf ≢ null
    → c ≢ b'%'
    → m buf ≡ none
    → vsnprintf env (suc k) buf 0 (some (c ∷ format)) args m ≡ fault
unfolding vsnprintf format_loop format_round output_char
vsnprintf_zero_size env k buf c format args m nn nc gone =
    let go : (c == b'%') ≡ false = ground arith in
    let given : (buf == null) ≡ false = ground arith in
    let at : m (buf + 0) ≡ none = ground arith in rw (go, given, store-fault m (buf + 0) c at)
