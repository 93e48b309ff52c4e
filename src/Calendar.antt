-- ===== src/Calendar.antt =====
-- src/time/time.c: `gmtime_r` and `mktime`. Times and fields are signed; division rounds to zero.
-- A `NULL` argument sets `errno` and is not modelled. The type `int` has 32 bits; the sums of
-- `mktime` are taken without its limits, since signed overflow is undefined.
pub mod Roundtrip
use aic_lib.Base.{
  ℕ, zero, suc, ◌+◌, ◌-◌, ◌*◌, ◌/◌, ◌%◌, ◌^◌, Bool, true, false, not, ◌&&◌, ◌||◌, ◌==◌, leb, ltb,
  if◌then◌else◌, Option, none, some, List, [], ◌∷◌, get_elem?, get_or,
}
use aic_lib.Base.Int.{ℤ, pos, negsuc, neg_ℕ, sub_ℕ, pos_part, neg_part}

abbrev pub days_per_week : ℕ
days_per_week = 7

abbrev pub quot_ℤ : ℤ → ℕ → ℤ
quot_ℤ (pos n) d = pos (n / d)
quot_ℤ (negsuc n) d = neg_ℕ (suc n / d)

abbrev pub rem_ℤ : ℤ → ℕ → ℤ
rem_ℤ (pos n) d = pos (n % d)
rem_ℤ (negsuc n) d = neg_ℕ (suc n % d)

abbrev pub add_ℤ : ℤ → ℤ → ℤ
add_ℤ (pos m) (pos n) = pos (m + n)
add_ℤ (pos m) (negsuc n) = sub_ℕ m (suc n)
add_ℤ (negsuc m) (pos n) = sub_ℕ n (suc m)
add_ℤ (negsuc m) (negsuc n) = negsuc (suc (m + n))

abbrev pub mul_ℤ : ℤ → ℕ → ℤ
mul_ℤ (pos m) n = pos (m * n)
mul_ℤ (negsuc m) n = neg_ℕ (suc m * n)

-- The conversion from `time_t` to `int`.
abbrev wrap_word : ℕ → ℤ
wrap_word n = if ltb n (2 ^ 31) then pos n else sub_ℕ n (2 ^ 32)

abbrev pub to_int : ℤ → ℤ
to_int (pos n) = wrap_word (n % 2 ^ 32)
to_int (negsuc n) = wrap_word (2 ^ 32 - 1 - n % 2 ^ 32)

-- `struct tm`, the fields that the two functions compute.
pub record Tm : Type 0 where
  pub tm_sec : ℤ
  pub tm_min : ℤ
  pub tm_hour : ℤ
  pub tm_mday : ℤ
  pub tm_mon : ℕ
  pub tm_year : ℤ
  pub tm_wday : ℤ
  pub tm_yday : ℤ

unfoldable pub leap : ℕ → ℕ
leap year = if (year % 4 == 0) && (not (year % 100 == 0) || (year % 400 == 0)) then 1 else 0

-- `while (days >= 365)`
unfoldable pub year_loop : ℕ → ℕ → ℕ → ℕ × ℕ
year_loop zero days year = (days, year)
year_loop (suc k) days year =
    let rest = year_loop k (days - (365 + leap year)) (year + 1) in
    if leb 365 days && leb (365 + leap year) days then rest else (days, year)

abbrev pub month_days : List ℕ
month_days = 31 ∷ 28 ∷ 31 ∷ 30 ∷ 31 ∷ 30 ∷ 31 ∷ 31 ∷ 30 ∷ 31 ∷ 30 ∷ 31 ∷ []

-- `month_days[month] + (month == 1 && leap)`
unfoldable pub month_length : ℕ → ℕ → ℕ
month_length month leap = get_or month_days month 0 + (if month == 1 then leap else 0)

-- `while (month < 11 && …)`, with that many rounds left: the day of the month and the month.
unfoldable pub month_loop : ℕ → ℕ → ℕ → ℕ → ℕ × ℕ
month_loop zero days month leap = (days, month)
month_loop (suc left) days month leap =
    let rest = month_loop left (days - month_length month leap) (month + 1) leap in
    if leb (month_length month leap) days then rest else (days, month)

-- The year, month and day; a negative number of days runs no loop.
unfoldable pub civil : ℤ → ℕ × ℕ × ℤ
civil (negsuc n) = (1970, 0, add_ℤ (negsuc n) (pos 1))
civil (pos n) =
    let (days, year) = year_loop n n 1970 in
    let (day, month) = month_loop 11 days 0 (leap year) in (year, month, pos (day + 1))

unfoldable pub gmtime_r : ℤ → Tm
gmtime_r timep =
    let t = quot_ℤ (quot_ℤ (quot_ℤ timep 60) 60) 24 in
    let (year, month, day) = civil (to_int t) in
    record {
      tm_sec = rem_ℤ timep 60;
      tm_min = rem_ℤ (quot_ℤ timep 60) 60;
      tm_hour = rem_ℤ (quot_ℤ (quot_ℤ timep 60) 60) 24;
      tm_mday = day;
      tm_mon = month;
      tm_year = sub_ℕ year 1900;
      tm_wday = rem_ℤ (add_ℤ t (pos 4)) days_per_week;
      tm_yday = pos 0;
    }

-- `for (int y = 1970; y < year; y++)`, by the number of years.
unfoldable pub days_before : ℕ → ℕ
days_before zero = 0
days_before (suc years) = days_before years + (365 + leap (1970 + years))

abbrev pub days_to_month : List ℕ
days_to_month = 0 ∷ 31 ∷ 59 ∷ 90 ∷ 120 ∷ 151 ∷ 181 ∷ 212 ∷ 243 ∷ 273 ∷ 304 ∷ 334 ∷ []

-- The day after February 29.
abbrev pub leap_day : ℕ → ℕ → ℕ
leap_day month year = if ltb 1 month then leap year else 0

-- A month out of the table is undefined: `none`. The loop runs only for a year above 1970, and a
-- remainder of a negative year is zero just when that of its absolute value is.
unfoldable pub mktime : Tm → Option ℤ
mktime tm = elim (get_elem? days_to_month tm.tm_mon) [
  | none ↦ none
  | some before ↦
      let year = add_ℤ tm.tm_year (pos 1900) in
      let days =
        add_ℤ
          (pos (
            days_before (pos_part year - 1970)
            + before
            + leap_day tm.tm_mon (pos_part year + neg_part year)))
          (add_ℤ tm.tm_mday (negsuc 0)) in
      some (
        add_ℤ (mul_ℤ days 86400)
          (add_ℤ (mul_ℤ tm.tm_hour 3600) (add_ℤ (mul_ℤ tm.tm_min 60) tm.tm_sec)))
]
