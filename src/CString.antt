-- ===== src/CString.antt =====
-- The functions of src/string/string.c and src/string/strcoll.c that only read memory. A loop
-- that the source bounds by `n` recurs on `n`; any other loop runs on fuel, one unit a round.
pub mod Length
pub mod Compare
pub mod Search
pub mod Span
use aic_lib.Base.{
  ℕ, zero, suc, ◌+◌, ◌-◌, ◌%◌, Bool, true, false, ◌&&◌, ◌==◌, leb, ltb, if◌then◌else◌,
}
use aic_lib.Base.Int.{ℤ, pos, sub_ℕ}
use aic_lib.Memory.{Ptr, null, Cmd, pure, stuck, ◌>>=◌, ◌>>◌, load, store}

strlen_loop : ℕ → Ptr → ℕ → Cmd ℕ
strlen_loop zero s len = stuck
strlen_loop (suc k) s len = do
  c ← load (s + len)
  if c == 0 then pure len else strlen_loop k s (len + 1)

unfoldable pub strlen : ℕ → Ptr → Cmd ℕ
unfolding strlen_loop
strlen k s = strlen_loop k s 0

-- Where the two strings stop agreeing, or the first one ends.
strcmp_loop : ℕ → Ptr → Ptr → Cmd (Ptr × Ptr)
strcmp_loop zero s1 s2 = stuck
strcmp_loop (suc k) s1 s2 = do
  a ← load s1
  if a == 0
      then pure (s1, s2)
      else do b ← load s2; if a == b then strcmp_loop k (s1 + 1) (s2 + 1) else pure (s1, s2)

unfoldable pub strcmp : ℕ → Ptr → Ptr → Cmd ℤ
unfolding strcmp_loop
strcmp k s1 s2 = do (p, q) ← strcmp_loop k s1 s2; a ← load p; b ← load q; pure (sub_ℕ a b)

unfoldable pub strcoll : ℕ → Ptr → Ptr → Cmd ℤ
strcoll k s1 s2 = strcmp k s1 s2

strncmp_loop : ℕ → Ptr → Ptr → Cmd (Ptr × Ptr × ℕ)
strncmp_loop zero s1 s2 = pure (s1, s2, 0)
strncmp_loop (suc n) s1 s2 = do
  a ← load s1
  if a == 0
      then pure (s1, s2, suc n)
      else do b ← load s2; if a == b then strncmp_loop n (s1 + 1) (s2 + 1) else pure (s1, s2, suc n)

unfoldable pub strncmp : Ptr → Ptr → ℕ → Cmd ℤ
unfolding strncmp_loop
strncmp s1 s2 n = do
  (p, q, left) ← strncmp_loop n s1 s2
  if left == 0 then pure (pos 0) else do a ← load p; b ← load q; pure (sub_ℕ a b)

-- `if (c >= 'A' && c <= 'Z') c += 'a' - 'A';` on an unsigned char.
unfoldable pub fold_case : ℕ → ℕ
fold_case c = if leb b'A' c && leb c b'Z' then (c + 32) % 256 else c

unfoldable pub strcasecmp : ℕ → Ptr → Ptr → Cmd ℤ
unfolding fold_case
strcasecmp zero s1 s2 = stuck
strcasecmp (suc k) s1 s2 = do
  a ← load s1
  b ← load s2
  let c1 = fold_case a
  let c2 = fold_case b
  if c1 == c2
      then (if c1 == 0 then pure (pos 0) else strcasecmp k (s1 + 1) (s2 + 1))
      else pure (sub_ℕ c1 c2)

unfoldable pub strncasecmp : Ptr → Ptr → ℕ → Cmd ℤ
unfolding fold_case
strncasecmp s1 s2 zero = pure (pos 0)
strncasecmp s1 s2 (suc n) = do
  a ← load s1
  b ← load s2
  let c1 = fold_case a
  let c2 = fold_case b
  if c1 == c2
      then (if c1 == 0 then pure (pos 0) else strncasecmp (s1 + 1) (s2 + 1) n)
      else pure (sub_ℕ c1 c2)

strchr_loop : ℕ → Ptr → ℕ → Cmd Ptr
strchr_loop zero s c = stuck
strchr_loop (suc k) s c = do
  b ← load s
  if b == c then pure s else if b == 0 then pure null else strchr_loop k (s + 1) c

-- The cast `(char)c` keeps the low byte.
unfoldable pub strchr : ℕ → Ptr → ℕ → Cmd Ptr
unfolding strchr_loop
strchr k s c = strchr_loop k s (c % 256)

-- The end of the string and the last match on the way.
strrchr_loop : ℕ → Ptr → ℕ → Ptr → Cmd (Ptr × Ptr)
strrchr_loop zero s c last = stuck
strrchr_loop (suc k) s c last = do
  b ← load s
  if b == 0 then pure (s, last) else strrchr_loop k (s + 1) c (if b == c then s else last)

unfoldable pub strrchr : ℕ → Ptr → ℕ → Cmd Ptr
unfolding strrchr_loop
strrchr k s c = do
  (s', last) ← strrchr_loop k s (c % 256) null
  if c % 256 == 0 then pure s' else pure last

-- The inner loop of `strstr`: how far the needle matches.
match_loop : ℕ → Ptr → Ptr → Cmd Ptr
match_loop zero h n = stuck
match_loop (suc k) h n = do
  a ← load h
  if a == 0 then pure n else do
    b ← load n
    if b == 0 then pure n else if a == b then match_loop k (h + 1) (n + 1) else pure n

-- `j` is the fuel of each inner loop.
strstr_loop : ℕ → ℕ → Ptr → Ptr → Cmd Ptr
strstr_loop j zero haystack needle = stuck
strstr_loop j (suc k) haystack needle = do
  c ← load haystack
  if c == 0 then pure null else do
    n ← match_loop j haystack needle
    b ← load n
    if b == 0 then pure haystack else strstr_loop j k (haystack + 1) needle

unfoldable pub strstr : ℕ → Ptr → Ptr → Cmd Ptr
unfolding match_loop strstr_loop
strstr k haystack needle = do
  b ← load needle
  if b == 0 then pure haystack else strstr_loop k k haystack needle

-- The inner loop of `strspn`, `strcspn` and `strpbrk`: is the byte in the set?
in_set : ℕ → Ptr → ℕ → Cmd Bool
in_set zero a c = stuck
in_set (suc k) a c = do
  b ← load a
  if b == 0 then pure false else if c == b then pure true else in_set k (a + 1) c

strspn_loop : ℕ → ℕ → Ptr → Ptr → ℕ → Cmd ℕ
strspn_loop j zero s accept count = stuck
strspn_loop j (suc k) s accept count = do
  c ← load s
  if c == 0 then pure count else do
    found ← in_set j accept c
    if found then strspn_loop j k (s + 1) accept (count + 1) else pure count

unfoldable pub strspn : ℕ → Ptr → Ptr → Cmd ℕ
unfolding in_set strspn_loop
strspn k s accept = strspn_loop k k s accept 0

strcspn_loop : ℕ → ℕ → Ptr → Ptr → ℕ → Cmd ℕ
strcspn_loop j zero s reject count = stuck
strcspn_loop j (suc k) s reject count = do
  c ← load s
  if c == 0 then pure count else do
    found ← in_set j reject c
    if found then pure count else strcspn_loop j k (s + 1) reject (count + 1)

unfoldable pub strcspn : ℕ → Ptr → Ptr → Cmd ℕ
unfolding in_set strcspn_loop
strcspn k s reject = strcspn_loop k k s reject 0

strpbrk_loop : ℕ → ℕ → Ptr → Ptr → Cmd Ptr
strpbrk_loop j zero s accept = stuck
strpbrk_loop j (suc k) s accept = do
  c ← load s
  if c == 0
      then pure null
      else do found ← in_set j accept c; if found then pure s else strpbrk_loop j k (s + 1) accept

unfoldable pub strpbrk : ℕ → Ptr → Ptr → Cmd Ptr
unfolding in_set strpbrk_loop
strpbrk k s accept = strpbrk_loop k k s accept
