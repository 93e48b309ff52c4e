-- ===== src/Ctype/Wide.antt =====
-- src/ctype/wctype.c: the wide variants, on a `wint_t`, an unsigned 32-bit number.
use aic_lib.Base.{ℕ, ◌+◌, ◌%◌, ◌^◌, Bool, ◌||◌, ◌==◌, ltb, bit_or, if◌then◌else◌}
use aic_lib.Ctype.{minus}

unfoldable pub iswascii : ℕ → Bool
iswascii wc = ltb wc 128

unfoldable pub iswdigit : ℕ → Bool
iswdigit wc = ltb (minus wc b'0') 10

unfoldable pub iswalpha : ℕ → Bool
iswalpha wc = ltb (minus (bit_or wc 32) b'a') 26

unfoldable pub iswalnum : ℕ → Bool
unfolding iswalpha iswdigit
iswalnum wc = iswalpha wc || iswdigit wc

unfoldable pub iswblank : ℕ → Bool
iswblank wc = (wc == b' ') || (wc == 9)

unfoldable pub iswcntrl : ℕ → Bool
iswcntrl wc = ltb wc 32 || (wc == 127)

unfoldable pub iswlower : ℕ → Bool
iswlower wc = ltb (minus wc b'a') 26

unfoldable pub iswupper : ℕ → Bool
iswupper wc = ltb (minus wc b'A') 26

unfoldable pub iswspace : ℕ → Bool
iswspace wc = (wc == b' ') || ltb (minus wc 9) 5

unfoldable pub iswxdigit : ℕ → Bool
unfolding iswdigit
iswxdigit wc = iswdigit wc || ltb (minus (bit_or wc 32) b'a') 6

unfoldable pub towlower : ℕ → ℕ
unfolding iswupper
towlower wc = if iswupper wc then (wc + 32) % 2 ^ 32 else wc

unfoldable pub towupper : ℕ → ℕ
unfolding iswlower
towupper wc = if iswlower wc then minus wc 32 else wc
