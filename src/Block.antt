-- ===== src/Block.antt =====
-- src/string/memset.c and src/string/memcpy.c: blocks of bytes. Each `while (n--)` recurs on `n`.
pub mod Copy
pub mod Fill
use aic_lib.Base.{ℕ, zero, suc, ◌+◌, ◌-◌, ◌%◌, ◌==◌, ltb, if◌then◌else◌}
use aic_lib.Base.Int.{ℤ, pos, sub_ℕ}
use aic_lib.Memory.{Ptr, null, Cmd, pure, ◌>>=◌, ◌>>◌, load, store}

unfoldable pub memset_loop : ℕ → Ptr → ℕ → Cmd (Unit {0})
memset_loop zero p c = pure tt
memset_loop (suc n) p c = do store p c; memset_loop n (p + 1) c

-- The cast `(unsigned char)c` keeps the low byte.
unfoldable pub memset : Ptr → ℕ → ℕ → Cmd Ptr
unfolding memset_loop
memset s c n = do memset_loop n s (c % 256); pure s

-- `while (n--) *d++ = *s++;`
copy_up : ℕ → Ptr → Ptr → Cmd (Unit {0})
copy_up zero d s = pure tt
copy_up (suc n) d s = do b ← load s; store d b; copy_up n (d + 1) (s + 1)

-- `while (n--) *--d = *--s;`
copy_down : ℕ → Ptr → Ptr → Cmd (Unit {0})
copy_down zero d s = pure tt
copy_down (suc n) d s = do b ← load (s - 1); store (d - 1) b; copy_down n (d - 1) (s - 1)

unfoldable pub memcpy : Ptr → Ptr → ℕ → Cmd Ptr
unfolding copy_up
memcpy dest src n = do copy_up n dest src; pure dest

unfoldable pub memmove : Ptr → Ptr → ℕ → Cmd Ptr
unfolding copy_up copy_down
memmove dest src n = do
  if ltb dest src then copy_up n dest src else copy_down n (dest + n) (src + n)
  pure dest

memchr_loop : ℕ → Ptr → ℕ → Cmd Ptr
memchr_loop zero p c = pure null
memchr_loop (suc n) p c = do b ← load p; if b == c then pure p else memchr_loop n (p + 1) c

unfoldable pub memchr : Ptr → ℕ → ℕ → Cmd Ptr
unfolding memchr_loop
memchr s c n = memchr_loop n s (c % 256)

unfoldable pub memcmp : Ptr → Ptr → ℕ → Cmd ℤ
memcmp p1 p2 zero = pure (pos 0)
memcmp p1 p2 (suc n) = do
  a ← load p1
  b ← load p2
  if a == b then memcmp (p1 + 1) (p2 + 1) n else pure (sub_ℕ a b)
