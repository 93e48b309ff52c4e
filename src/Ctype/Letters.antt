-- ===== src/Ctype/Letters.antt =====
-- Conversions of letters, and the wide variants.
use aic_lib.Base.{
  ℕ, ◌+◌, ◌-◌, ◌<◌, ◌^◌, ◌≡◌, refl, arith, bit_or-32, bit_and-not_32, false, if◌then◌else◌, bit_and,
  bit_or,
}
use aic_lib.Ctype.{
  isdigit, isalpha, isalnum, islower, isupper, isspace, isxdigit, iscntrl, isblank, isascii,
  tolower, toupper,
}
use aic_lib.Ctype.Wide.{
  iswascii, iswdigit, iswalpha, iswalnum, iswblank, iswcntrl, iswlower, iswupper, iswspace,
  iswxdigit, towlower, towupper,
}

pub record Converts (c : ℕ) : Type 0 where
  pub lower : tolower c ≡ (if isupper c then c + 32 else c)
  pub upper : toupper c ≡ (if islower c then c - 32 else c)
  pub lower_upper : tolower (toupper c) ≡ tolower c
  pub upper_lower : toupper (tolower c) ≡ toupper c
  pub no_upper : isupper (tolower c) ≡ false
  pub no_lower : islower (toupper c) ≡ false

-- For every 32-bit pattern: `tolower` moves a capital letter up by 32 and `toupper` a small one
-- down by 32, anything else is kept, each absorbs the other, and no capital (small) letter is
-- left.
pub letters-Converts : (c : ℕ) → c < 2 ^ 32 → Converts c
unfolding tolower toupper
letters-Converts c word = record {
  lower = ground (arith, bit_or-32 c);
  upper = ground (arith, bit_and-not_32 c);
  lower_upper = ground (arith, bit_and-not_32 c, bit_or-32 c, bit_or-32 (bit_and c 0xffff_ffdf));
  upper_lower = ground (arith, bit_and-not_32 c, bit_or-32 c, bit_and-not_32 (bit_or c 32));
  no_upper = ground (arith, bit_or-32 c);
  no_lower = ground (arith, bit_and-not_32 c);
}

pub record SameWide (c : ℕ) : Type 0 where
  pub ascii : iswascii c ≡ isascii c
  pub digit : iswdigit c ≡ isdigit c
  pub alpha : iswalpha c ≡ isalpha c
  pub alnum : iswalnum c ≡ isalnum c
  pub blank : iswblank c ≡ isblank c
  pub cntrl : iswcntrl c ≡ iscntrl c
  pub lower : iswlower c ≡ islower c
  pub upper : iswupper c ≡ isupper c
  pub space : iswspace c ≡ isspace c
  pub xdigit : iswxdigit c ≡ isxdigit c
  pub to_lower : towlower c ≡ tolower c
  pub to_upper : towupper c ≡ toupper c

-- On every 32-bit pattern each wide test and conversion agrees with its narrow one; the
-- conversions add and subtract 32 where the narrow ones set and clear bit 5.
pub wide-SameWide : (c : ℕ) → c < 2 ^ 32 → SameWide c
unfolding isdigit isalpha isalnum islower isupper isspace isxdigit iscntrl isblank isascii tolower
    toupper iswascii iswdigit iswalpha iswalnum iswblank iswcntrl iswlower iswupper iswspace
    iswxdigit towlower towupper
wide-SameWide c word = record {
  ascii = refl;
  digit = refl;
  alpha = refl;
  alnum = refl;
  blank = refl;
  cntrl = refl;
  lower = refl;
  upper = refl;
  space = refl;
  xdigit = refl;
  to_lower = ground (arith, bit_or-32 c);
  to_upper = ground (arith, bit_and-not_32 c);
}
