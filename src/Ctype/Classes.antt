-- ===== src/Ctype/Classes.antt =====
-- The classes of characters as ranges, and how they lie to one another.
use aic_lib.Base.{ℕ, ◌<◌, ◌^◌, ◌≡◌, refl, arith, bit_or-32, Bool, false, ◌&&◌, ◌||◌, ◌==◌, leb}
use aic_lib.Ctype.{
  isdigit, isalpha, isalnum, isgraph, islower, isupper, isprint, isspace, ispunct, isxdigit,
  iscntrl, isascii,
}

-- Is the number in the range, ends included?
unfoldable pub within : ℕ → ℕ → ℕ → Bool
within lo hi c = leb lo c && leb c hi

-- The ranges of the C locale, for every class that is a range or two.
pub record InRanges (c : ℕ) : Type 0 where
  pub digit : isdigit c ≡ within b'0' b'9' c
  pub lower : islower c ≡ within b'a' b'z' c
  pub upper : isupper c ≡ within b'A' b'Z' c
  pub alpha : isalpha c ≡ (within b'a' b'z' c || within b'A' b'Z' c)
  pub graph : isgraph c ≡ within b'!' b'~' c
  pub print : isprint c ≡ within b' ' b'~' c
  pub space : isspace c ≡ ((c == b' ') || within 9 13 c)
  pub xdigit : isxdigit c ≡ (within b'0' b'9' c || (within b'a' b'f' c || within b'A' b'F' c))

-- For every 32-bit pattern, a negative `int` included, each test accepts exactly the characters of
-- its range: the wrap-around of the subtraction lets nothing else in.
pub classes-InRanges : (c : ℕ) → c < 2 ^ 32 → InRanges c
unfolding isdigit islower isupper isalpha isgraph isprint isspace isxdigit within
classes-InRanges c word = record {
  digit = ground arith;
  lower = ground arith;
  upper = ground arith;
  alpha = ground (arith, bit_or-32 c);
  graph = ground arith;
  print = ground arith;
  space = ground arith;
  xdigit = ground (arith, bit_or-32 c);
}

-- How the classes lie to one another.
pub record Related (c : ℕ) : Type 0 where
  pub alpha : isalpha c ≡ (islower c || isupper c)
  pub alnum : isalnum c ≡ (isalpha c || isdigit c)
  pub graph : isgraph c ≡ (isalnum c || ispunct c)
  pub print : isprint c ≡ (isgraph c || (c == b' '))
  pub ascii : isascii c ≡ (isprint c || iscntrl c)
  pub punct : (ispunct c && isalnum c) ≡ false
  pub cases : (islower c && isupper c) ≡ false

-- For every 32-bit pattern: the letters are the small and the capital ones, which are disjoint;
-- the graphic characters are the letters, digits and punctuation marks, where no mark is a letter
-- or digit; with the space they are the printing ones, and with the control ones all of ASCII.
pub classes-Related : (c : ℕ) → c < 2 ^ 32 → Related c
unfolding ispunct isalnum isalpha isdigit islower isupper isgraph isprint isascii iscntrl
classes-Related c word = record {
  alpha = ground (arith, bit_or-32 c);
  alnum = refl;
  graph = ground (arith, bit_or-32 c);
  print = ground arith;
  ascii = ground arith;
  punct = ground (arith, bit_or-32 c);
  cases = ground arith;
}
