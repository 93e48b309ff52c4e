-- ===== src/Tokens.antt =====
-- src/string/strtok.c: the tokens of a string, one a call. The static pointer `last_token` is
-- passed along.
pub mod Token
use aic_lib.Base.{ℕ, zero, suc, ◌+◌, Bool, true, false, ◌==◌, if◌then◌else◌}
use aic_lib.Memory.{Ptr, null, Cmd, pure, stuck, ◌>>=◌, ◌>>◌, load, store}

-- `for (const char *d = delim; *d; d++)`: whether the byte is a delimiter.
is_delim : ℕ → ℕ → Ptr → Cmd Bool
is_delim zero c d = stuck
is_delim (suc k) c d = do
  b ← load d
  if b == 0 then pure false else if c == b then pure true else is_delim k c (d + 1)

-- The leading delimiters.
skip_delims : ℕ → Ptr → Ptr → Cmd Ptr
unfolding is_delim
skip_delims zero str delim = stuck
skip_delims (suc k) str delim = do
  c ← load str
  if c == 0 then pure str else do
    found ← is_delim (suc k) c delim
    if found then skip_delims k (str + 1) delim else pure str

-- The end of the token: what `last_token` becomes.
token_end : ℕ → Ptr → Ptr → Cmd Ptr
unfolding is_delim
token_end zero str delim = stuck
token_end (suc k) str delim = do
  c ← load str
  if c == 0 then pure null else do
    found ← is_delim (suc k) c delim
    if found then (do store str 0; pure (str + 1)) else token_end k (str + 1) delim

-- The token and the new `last_token`.
unfoldable pub strtok : ℕ → Ptr → Ptr → Ptr → Cmd (Ptr × Ptr)
unfolding skip_delims token_end
strtok k last_token str delim =
    let str : Ptr = if str == null then last_token else str in
    if str == null then pure (null, last_token) else do
      c ← load str
      if c == 0 then pure (null, last_token) else do
        token_start ← skip_delims k str delim
        first ← load token_start
        if first == 0
            then pure (null, null)
            else do last ← token_end k token_start delim; pure (token_start, last)
