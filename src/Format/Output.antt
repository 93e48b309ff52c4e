-- ===== src/Format/Output.antt =====
-- The output side of vsnprintf.c: the state, and the functions through which every byte of the
-- output goes. `size_t` has 64 bits.
use aic_lib.Base.{
  ℕ, zero, suc, ◌+◌, ◌-◌, ◌%◌, ◌^◌, Bool, true, ◌==◌, ltb, if◌then◌else◌, List, [], ◌∷◌, Option,
  none, some,
}
use aic_lib.Memory.{Ptr, null, Cmd, pure, fault, ◌>>=◌, ◌>>◌, store}

-- `vsnprintf_state_t`
pub record State : Type 0 where
  pub buffer : Ptr
  pub size : ℕ
  pub pos : ℕ
  pub total : ℕ
  pub overflow : Bool
  pub error : Bool

-- `size - 1` wraps for a size of 0.
abbrev pub room : ℕ → ℕ
room size = (size + 2 ^ 64 - 1) % 2 ^ 64

unfoldable pub output_char : State → ℕ → Cmd State
output_char st c =
    let counted = record st { total = (st.total + 1) % 2 ^ 64 } in
    if ltb st.pos (room st.size)
    then (if st.buffer == null then pure (record counted { pos = (st.pos + 1) % 2 ^ 64 }) else (do
      store (st.buffer + st.pos) c
      pure (record counted { pos = (st.pos + 1) % 2 ^ 64 })))
    else pure (record counted { overflow = true })

-- `for (i = 0; i < len && str[i]; i++)` over an array; an index past its end is a fault. The
-- first number is `len - i`.
unfoldable pub output_array : State → ℕ → List ℕ → Cmd State
output_array st zero str = pure st
output_array st (suc left) [] = λ _. fault
output_array st (suc left) (c ∷ str) =
    if c == 0 then pure st else do st' ← output_char st c; output_array st' left str

-- The bytes of `(null)`.
abbrev pub null_text : List ℕ
null_text = b'(' ∷ b'n' ∷ b'u' ∷ b'l' ∷ b'l' ∷ b')' ∷ []

-- A `NULL` string is `none`.
unfoldable pub output_string : State → Option (List ℕ) → ℕ → Cmd State
unfolding output_array
output_string st none len = output_array st 6 null_text
output_string st (some str) len = output_array st len str

unfoldable pub output_padding : State → ℕ → ℕ → Cmd State
output_padding st pad zero = pure st
output_padding st pad (suc count) = do st' ← output_char st pad; output_padding st' pad count
