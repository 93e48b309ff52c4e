-- ===== src/Calendar/Roundtrip.antt =====
-- `mktime` undoes `gmtime_r`.
use native.Mathlib.Nat.{add-zero}
use aic_lib.Base.{
  ℕ, zero, suc, ◌+◌, ◌-◌, ◌*◌, ◌/◌, ◌%◌, ◌^◌, ◌<◌, ◌≤◌, ◌≡◌, refl, arith, ◌&&◌, leb, ltb,
  if◌then◌else◌, some, get_elem?, get_or, get_elem?-get_or, ap, ◌∙◌, inl, inr, Bool-cases,
}
use aic_lib.Base.Int.{ℤ, pos, sub_ℕ}
use aic_lib.Calendar.{
  add_ℤ, to_int, leap, year_loop, month_length, month_loop, civil, gmtime_r, days_before,
  days_to_month, mktime,
}

leap-bound : (year : ℕ) → leap year ≤ 1
unfolding leap
leap-bound year = ground arith

year_loop-days_before :
    (k days i year : ℕ)
    → days ≤ k
    → year ≡ 1970 + i
    → (j : ℕ) × ((year_loop k days year).1 ≡ 1970 + j)
      × (days_before j + (year_loop k days year).0 ≡ days_before i + days)
      × ((year_loop k days year).0 < 365 + leap (1970 + j))
unfolding year_loop days_before
year_loop-days_before zero days i year h e = (i, e, refl, omega arith)
year_loop-days_before (suc k) days i year h e =
    elim (Bool-cases (leb 365 days && leb (365 + leap year) days)) [
      | inl more ↦
          let (j, year_is, days_are, bound) =
            year_loop-days_before k (days - (365 + leap year)) (suc i) (year + 1) (ground arith)
              (omega arith) in
          rw more (j, year_is, days_are ∙ ground (arith, ap leap e), bound)
      | inr last ↦ rw last (i, e, refl, ground (arith, ap leap e, leap-bound year))
    ]

-- The days of the year before a month.
abbrev days_into : ℕ → ℕ → ℕ
days_into month l = get_or days_to_month month 0 + (if ltb 1 month then l else 0)

month_length-days_into :
    (month l : ℕ) → month < 11 → days_into (month + 1) l ≡ days_into month l + month_length month l
unfolding month_length
month_length-days_into zero l h = omega arith
month_length-days_into (suc zero) l h = omega arith
month_length-days_into (suc (suc zero)) l h = omega arith
month_length-days_into (suc (suc (suc zero))) l h = omega arith
month_length-days_into (suc (suc (suc (suc zero)))) l h = omega arith
month_length-days_into (suc (suc (suc (suc (suc zero))))) l h = omega arith
month_length-days_into (suc (suc (suc (suc (suc (suc zero)))))) l h = omega arith
month_length-days_into (suc (suc (suc (suc (suc (suc (suc zero))))))) l h = omega arith
month_length-days_into (suc (suc (suc (suc (suc (suc (suc (suc zero)))))))) l h = omega arith
month_length-days_into (suc (suc (suc (suc (suc (suc (suc (suc (suc zero))))))))) l h = omega arith
month_length-days_into (suc (suc (suc (suc (suc (suc (suc (suc (suc (suc zero)))))))))) l h =
    omega arith
month_length-days_into (suc (suc (suc (suc (suc (suc (suc (suc (suc (suc (suc m))))))))))) l h =
    absurd (omega arith)

month_loop-days_into :
    (left days month l : ℕ)
    → month + left ≡ 11
    → (days_into (month_loop left days month l).1 l + (month_loop left days month l).0
        ≡ days_into month l + days)
      × ((month_loop left days month l).1 ≤ 11)
unfolding month_loop
month_loop-days_into zero days month l e = (refl, omega arith)
month_loop-days_into (suc left) days month l e =
    elim (Bool-cases (leb (month_length month l) days)) [
      | inl more ↦
          let (sum, bound) =
            month_loop-days_into left (days - month_length month l) (month + 1) l (omega arith) in
          let step = month_length-days_into month l (omega arith) in
          rw more (sum ∙ ground (arith, step), bound)
      | inr last ↦ rw last (refl, omega arith)
    ]

-- A date that stands for a number of days.
data Stands (n : ℕ) : ℕ × ℕ × ℤ → Type 0 where
  stands :
      (year j month day : ℕ)
      → year ≡ 1970 + j
      → month ≤ 11
      → days_before j + days_into month (leap year) + day ≡ n
      → Stands n (year, month, pos (day + 1))

civil-Stands : (n : ℕ) → Stands n (civil (pos n))
unfolding civil days_before
civil-Stands n =
    let (j, year_is, days_are, bound) = year_loop-days_before n n 0 1970 (omega arith) refl in
    let (sum, top) =
      month_loop-days_into 11 (year_loop n n 1970).0 0 (leap (year_loop n n 1970).1) refl in
    stands (year_loop n n 1970).1 j
      (month_loop 11 (year_loop n n 1970).0 0 (leap (year_loop n n 1970).1)).1
      (month_loop 11 (year_loop n n 1970).0 0 (leap (year_loop n n 1970).1)).0 year_is top
      (omega arith)

to_int-small : (t : ℕ) → t < 2 ^ 31 → to_int (pos t) ≡ pos t
to_int-small t h = ground arith

in_table :
    (month : ℕ) → month ≤ 11 → get_elem? days_to_month month ≡ some (get_or days_to_month month 0)
in_table month h = get_elem?-get_or days_to_month month 0 (omega arith)

year_back : (year : ℕ) → 1900 ≤ year → add_ℤ (sub_ℕ year 1900) (pos 1900) ≡ pos year
year_back year h = ground arith

years_back : (j : ℕ) → 1970 + j - 1970 ≡ j
years_back j = omega arith

day_back : (day : ℕ) → sub_ℕ (day + 1) 1 ≡ pos day
day_back day = ground arith

-- What `mktime` makes of such a date.
mktime-Stands :
    (n s m h wday : ℕ) (date : ℕ × ℕ × ℤ)
    → Stands n date
    → mktime (record {
      tm_sec = pos s;
      tm_min = pos m;
      tm_hour = pos h;
      tm_mday = date.2;
      tm_mon = date.1;
      tm_year = sub_ℕ date.0 1900;
      tm_wday = pos wday;
      tm_yday = pos 0;
    })
      ≡ some (pos (n * 86400 + (h * 3600 + (m * 60 + s))))
unfolding mktime
mktime-Stands n s m h wday date (stands year j month day e top sum) =
    rw
      (
        in_table month top,
        mktime,
        year_back year (omega arith),
        day_back day,
        ap (λ y. y - 1970) e,
        years_back j,
        add-zero year,
      )
      (ap (λ x. some (pos x)) (ground arith))

-- For every time from the epoch to the last that a day number of 31 bits can express, `mktime` of
-- the broken-down time that `gmtime_r` gives is that time again.
pub mktime-gmtime_r : (t : ℕ) → t < 2 ^ 31 * 86400 → mktime (gmtime_r (pos t)) ≡ some (pos t)
unfolding gmtime_r
mktime-gmtime_r t h = rw (to_int-small (t / 60 / 60 / 24) (omega arith)) (
    mktime-Stands (t / 60 / 60 / 24) (t % 60) (t / 60 % 60) (t / 60 / 60 % 24)
      ((t / 60 / 60 / 24 + 4) % 7) (civil (pos (t / 60 / 60 / 24)))
      (civil-Stands (t / 60 / 60 / 24))
    ∙ ap (λ x. some (pos x)) (omega arith))
