-- ===== src/StringCopy.antt =====
-- The functions of src/string/string.c that write a string. A loop that the source bounds by `n`
-- recurs on `n`; any other loop runs on fuel, one unit a round.
pub mod Overwrite
pub mod Bounded
pub mod Duplicate
use aic_lib.Base.{ℕ, zero, suc, ◌+◌, ◌-◌, ◌==◌, ltb, if◌then◌else◌}
use aic_lib.Memory.{Ptr, null, Cmd, pure, stuck, ◌>>=◌, ◌>>◌, load, store}
use aic_lib.CString.{strlen}
use aic_lib.Block.{memset_loop, memcpy}

-- `while ((*d++ = *src++));`
copy_loop : ℕ → Ptr → Ptr → Cmd (Unit {0})
copy_loop zero d src = stuck
copy_loop (suc k) d src = do
  b ← load src
  store d b
  if b == 0 then pure tt else copy_loop k (d + 1) (src + 1)

unfoldable pub strcpy : ℕ → Ptr → Ptr → Cmd Ptr
unfolding copy_loop
strcpy k dest src = do copy_loop k dest src; pure dest

-- `while (n && (*d++ = *src++)) n--;` with the values of `d` and `n` behind it.
strncpy_loop : ℕ → Ptr → Ptr → Cmd (Ptr × ℕ)
strncpy_loop zero d src = pure (d, 0)
strncpy_loop (suc n) d src = do
  b ← load src
  store d b
  if b == 0 then pure (d + 1, suc n) else strncpy_loop n (d + 1) (src + 1)

-- The second loop is the one of `memset`.
unfoldable pub strncpy : Ptr → Ptr → ℕ → Cmd Ptr
unfolding strncpy_loop
strncpy dest src n = do (d, left) ← strncpy_loop n dest src; memset_loop left d 0; pure dest

-- `while (*d) d++;`
pub find_end : ℕ → Ptr → Cmd Ptr
find_end zero d = stuck
find_end (suc k) d = do b ← load d; if b == 0 then pure d else find_end k (d + 1)

unfoldable pub strcat : ℕ → Ptr → Ptr → Cmd Ptr
unfolding find_end copy_loop
strcat k dest src = do d ← find_end k dest; copy_loop k d src; pure dest

-- `while (n && *src) { *d++ = *src++; n--; }`
strncat_loop : ℕ → Ptr → Ptr → Cmd Ptr
strncat_loop zero d src = pure d
strncat_loop (suc n) d src = do
  b ← load src
  if b == 0 then pure d else do store d b; strncat_loop n (d + 1) (src + 1)

unfoldable pub strncat : ℕ → Ptr → Ptr → ℕ → Cmd Ptr
unfolding find_end strncat_loop
strncat k dest src n = do d ← find_end k dest; d' ← strncat_loop n d src; store d' 0; pure dest

-- `malloc` is a parameter: a command that is given the number of bytes.
unfoldable pub strdup : (ℕ → Cmd Ptr) → ℕ → Ptr → Cmd Ptr
strdup malloc k s = do
  n ← strlen k s
  d ← malloc (n + 1)
  if d == null then pure d else do memcpy d s (n + 1); pure d

unfoldable pub strndup : (ℕ → Cmd Ptr) → ℕ → Ptr → ℕ → Cmd Ptr
strndup malloc k s n = do
  full ← strlen k s
  let len = if ltb n full then n else full
  d ← malloc (len + 1)
  if d == null then pure d else do memcpy d s len; store (d + len) 0; pure d
