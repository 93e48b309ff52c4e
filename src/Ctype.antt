-- ===== src/Ctype.antt =====
-- src/ctype/ctype.c and src/ctype/wctype.c. An `int` is its 32-bit pattern, a number below
-- 2 ^ 32, so `(unsigned)c - k` wraps; a test that returns an `int` is a Bool.
pub mod Classes
pub mod Letters
pub mod Wide
use aic_lib.Base.{
  ℕ, ◌+◌, ◌-◌, ◌%◌, ◌^◌, Bool, true, false, not, ◌&&◌, ◌||◌, ◌==◌, ltb, bit_and, bit_or,
  if◌then◌else◌,
}

-- `(unsigned)a - (unsigned)b`
abbrev pub minus : ℕ → ℕ → ℕ
minus a b = (a + 2 ^ 32 - b) % 2 ^ 32

unfoldable pub isascii : ℕ → Bool
isascii c = ltb c 128

unfoldable pub toascii : ℕ → ℕ
toascii c = bit_and c 0x7f

unfoldable pub isdigit : ℕ → Bool
isdigit c = ltb (minus c b'0') 10

unfoldable pub isalpha : ℕ → Bool
isalpha c = ltb (minus (bit_or c 32) b'a') 26

unfoldable pub isalnum : ℕ → Bool
unfolding isalpha isdigit
isalnum c = isalpha c || isdigit c

unfoldable pub isblank : ℕ → Bool
isblank c = (c == b' ') || (c == 9)

unfoldable pub iscntrl : ℕ → Bool
iscntrl c = ltb c 32 || (c == 127)

unfoldable pub isgraph : ℕ → Bool
isgraph c = ltb (minus c b'!') 94

unfoldable pub islower : ℕ → Bool
islower c = ltb (minus c b'a') 26

unfoldable pub isupper : ℕ → Bool
isupper c = ltb (minus c b'A') 26

unfoldable pub isprint : ℕ → Bool
isprint c = ltb (minus c b' ') 95

unfoldable pub isspace : ℕ → Bool
isspace c = (c == b' ') || ltb (minus c 9) 5

unfoldable pub ispunct : ℕ → Bool
unfolding isprint isalnum
ispunct c = isprint c && not (isalnum c) && not (c == b' ')

unfoldable pub isxdigit : ℕ → Bool
unfolding isdigit
isxdigit c = isdigit c || ltb (minus (bit_or c 32) b'a') 6

unfoldable pub tolower : ℕ → ℕ
unfolding isupper
tolower c = if isupper c then bit_or c 32 else c

-- `~32` is the word with every bit but bit 5.
unfoldable pub toupper : ℕ → ℕ
unfolding islower
toupper c = if islower c then bit_and c 0xffff_ffdf else c
