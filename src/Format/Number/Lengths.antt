-- ===== src/Format/Number/Lengths.antt =====
-- What is left of a format behind a number is no longer than before.
use aic_lib.Base.{ℕ, ◌+◌, ◌*◌, ◌-◌, ◌≤◌, arith, Bool, true, false, List, [], ◌∷◌, length}
use aic_lib.Format.Number.{skip_digits, parse_int_loop, parse_format_int}

skip_digits-length : (format : List ℕ) → length (skip_digits format) ≤ length format
unfolding skip_digits
skip_digits-length [] = omega arith
skip_digits-length (c ∷ format) = ground (arith, skip_digits-length format)

parse_int_loop-length :
    (format : List ℕ) (v : ℕ) (has : Bool) → length (parse_int_loop format v has).1 ≤ length format
unfolding parse_int_loop
parse_int_loop-length [] v has = omega arith
parse_int_loop-length (c ∷ format) v has = ground (
  arith,
  skip_digits-length format,
  skip_digits-length (c ∷ format),
  parse_int_loop-length format (v * 10 + (c - b'0')) true,
)

pub parse_format_int-length :
    (format : List ℕ) (default_val : ℕ)
    → length (parse_format_int format default_val).1 ≤ length format
unfolding parse_format_int
parse_format_int-length format default_val = parse_int_loop-length format 0 false
