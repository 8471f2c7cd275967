-- ===== src/Write/Calendar.antt =====
-- The civil date of a day, against the Gregorian calendar counted from the year 1.
use ltsearch.Common.{
  ℕ, zero, suc, ◌+◌, ◌-◌, ◌*◌, ◌/◌, ◌%◌, ◌≤◌, ◌<◌, ◌≡◌, refl, arith, ap, sym, ltb→lt, Bool-cases,
  ltb, subst, ◌⊎◌, inl, inr, ◌∙◌, true, false, not, ◌&&◌, ◌||◌, ◌==◌, leb, if◌then◌else◌,
}
use ltsearch.Common.Signed.{pos}
use ltsearch.Write.Wal.{
  civil_from_days, year_of_era, day_of_year, shifted_month, day_of_month, month_of,
}

-- February 29th of the year, as a number of days.
unfoldable pub leap_day : ℕ → ℕ
leap_day y = if y % 4 == 0 && (not (y % 100 == 0) || y % 400 == 0) then 1 else 0

-- The days of a year before a month, and the days of a month.
unfoldable pub days_before_month : ℕ → ℕ → ℕ
unfolding leap_day
days_before_month y m =
    if m == 1
    then 0
    else if m == 2
    then 31
    else leap_day y
      + (if m == 3
          then 59
          else if m == 4
          then 90
          else if m == 5
          then 120
          else if m == 6
          then 151
          else if m == 7
          then 181
          else if m == 8
          then 212
          else if m == 9
          then 243
          else if m == 10
          then 273
          else if m == 11
          then 304
          else if m == 12
          then 334
          else 365)

abbrev pub month_length : ℕ → ℕ → ℕ
unfolding days_before_month
month_length y m = days_before_month y (suc m) - days_before_month y m

-- The day's number, where January 1st of the year 1 is day 1.
abbrev pub day_number : ℕ → ℕ → ℕ → ℕ
unfolding days_before_month
day_number y m d =
    365 * (y - 1) + (y - 1) / 4 - (y - 1) / 100 + (y - 1) / 400 + days_before_month y m + d

-- The leap days up to a year, and those before it.
leap_day-eq :
    (y : ℕ)
    → 1 ≤ y
    → (y - 1) / 4 - (y - 1) / 100 + (y - 1) / 400 + leap_day y ≡ y / 4 - y / 100 + y / 400
unfolding leap_day
leap_day-eq y h = ground (arith, h)

year-bound : (doe : ℕ) → doe < 146_097 → year_of_era doe < 400
unfolding year_of_era
year-bound doe h = omega arith

-- A day of an era, from its year, which begins in March, and the day in it.
doe-eq :
    (doe : ℕ)
    → doe < 146_097
    → doe ≡ 365 * year_of_era doe + year_of_era doe / 4 - year_of_era doe / 100 + day_of_year doe
unfolding day_of_year year_of_era
doe-eq doe h = omega arith

doy-bound : (doe : ℕ) → doe < 146_097 → day_of_year doe < 365 + leap_day (year_of_era doe + 1)
unfolding day_of_year year_of_era leap_day
doy-bound doe h = ground arith

-- The months from March on begin at the days that the source computes.
march_on :
    (mp y : ℕ) → mp < 11 → days_before_month y (mp + 3) ≡ 59 + leap_day y + (153 * mp + 2) / 5
unfolding days_before_month
march_on zero y h = omega arith
march_on (suc zero) y h = omega arith
march_on (suc (suc zero)) y h = omega arith
march_on (suc (suc (suc zero))) y h = omega arith
march_on (suc (suc (suc (suc zero)))) y h = omega arith
march_on (suc (suc (suc (suc (suc zero))))) y h = omega arith
march_on (suc (suc (suc (suc (suc (suc zero)))))) y h = omega arith
march_on (suc (suc (suc (suc (suc (suc (suc zero))))))) y h = omega arith
march_on (suc (suc (suc (suc (suc (suc (suc (suc zero)))))))) y h = omega arith
march_on (suc (suc (suc (suc (suc (suc (suc (suc (suc zero))))))))) y h = omega arith
march_on (suc (suc (suc (suc (suc (suc (suc (suc (suc (suc zero)))))))))) y h = omega arith
march_on (suc (suc (suc (suc (suc (suc (suc (suc (suc (suc (suc mp))))))))))) y h =
    absurd (omega (arith, h))

march_end :
    (mp y : ℕ)
    → mp < 10
    → days_before_month y (suc (mp + 3)) ≡ 59 + leap_day y + (153 * (mp + 1) + 2) / 5
march_end mp y h = ap (days_before_month y) (omega arith) ∙ march_on (mp + 1) y (omega (arith, h))

-- A date that the calendar has, and the number of its day.
abbrev pub IsDateOf : ℕ → ℕ → ℕ → ℕ → Type 0
IsDateOf number y m d =
    (1 ≤ m) × (m ≤ 12) × (1 ≤ d) × (d ≤ month_length y m) × (day_number y m d ≡ number)

-- The days of the years before a year, from March on.
abbrev march_number : ℕ → ℕ
march_number y = 365 * y + y / 4 - y / 100 + y / 400

from_march :
    (doy y mp : ℕ)
    → shifted_month doy ≡ mp
    → mp < 10
    → 1 ≤ y
    → IsDateOf (march_number y + doy - 305) y (mp + 3) (day_of_month doy)
unfolding shifted_month day_of_month month_length day_number
from_march doy y mp e h positive = (
  omega (arith, e),
  omega (arith, e, h),
  omega (arith, e),
  omega (arith, e, march_on mp y (omega (arith, h)), march_end mp y h),
  omega (arith, e, march_on mp y (omega (arith, h)), leap_day-eq y positive),
)

leap_day-le : (y : ℕ) → leap_day y ≤ 1
unfolding leap_day
leap_day-le y = ground arith

last_months : (mp : ℕ) → mp < 12 → 10 ≤ mp → (mp ≡ 10) ⊎ (mp ≡ 11)
last_months mp h l = ground (arith, h, l)

to_january :
    (doy y : ℕ)
    → shifted_month doy ≡ 10
    → IsDateOf (march_number y + doy - 305) (y + 1) 1 (day_of_month doy)
unfolding shifted_month day_of_month month_length day_number days_before_month
to_january doy y e =
    (omega arith, omega arith, omega (arith, e), omega (arith, e), omega (arith, e))

to_february :
    (doy y : ℕ)
    → shifted_month doy ≡ 11
    → doy < 365 + leap_day (y + 1)
    → IsDateOf (march_number y + doy - 305) (y + 1) 2 (day_of_month doy)
unfolding shifted_month day_of_month month_length day_number days_before_month
to_february doy y e fits =
    (omega arith, omega arith, omega (arith, e), omega (arith, e, fits), omega (arith, e))

-- January and February belong to the year that follows in the calendar.
to_march :
    (doy y mp : ℕ)
    → shifted_month doy ≡ mp
    → 10 ≤ mp
    → doy < 365 + leap_day (y + 1)
    → IsDateOf (march_number y + doy - 305) (y + 1) (mp - 9) (day_of_month doy)
unfolding shifted_month
to_march doy y mp e h fits = elim (last_months mp (omega (arith, e, fits, leap_day-le (y + 1))) h) [
  | inl january ↦
      subst (λ m. IsDateOf (march_number y + doy - 305) (y + 1) m (day_of_month doy))
        (omega (arith, january)) (to_january doy y (e ∙ january))
  | inr february ↦
      subst (λ m. IsDateOf (march_number y + doy - 305) (y + 1) m (day_of_month doy))
        (omega (arith, february)) (to_february doy y (e ∙ february) fits)
]

leap_day_era : (y era : ℕ) → leap_day (400 * era + y) ≡ leap_day y
unfolding leap_day
leap_day_era y era = ground arith

abbrev calendar_year : ℕ → ℕ → ℕ
unfolding month_of
calendar_year y mp = y + (if leb (month_of mp) 2 then 1 else 0)

early_year : (y mp : ℕ) → ltb mp 10 ≡ true → calendar_year y mp ≡ y
unfolding month_of
early_year y mp h = ground (arith, h)

early_month : (mp : ℕ) → ltb mp 10 ≡ true → month_of mp ≡ mp + 3
unfolding month_of
early_month mp h = ground (arith, h)

late_year : (y mp : ℕ) → mp < 12 → ltb mp 10 ≡ false → calendar_year y mp ≡ y + 1
unfolding month_of
late_year y mp l h = ground (arith, h, l)

late_month : (mp : ℕ) → ltb mp 10 ≡ false → month_of mp ≡ mp - 9
unfolding month_of
late_month mp h = ground (arith, h)

last_month : (doy y mp : ℕ) → shifted_month doy ≡ mp → doy < 365 + leap_day (y + 1) → mp < 12
unfolding shifted_month
last_month doy y mp e fits = omega (arith, e, fits, leap_day-le (y + 1))

same_date :
    (number d : ℕ) {y y' m m' : ℕ}
    → y ≡ y'
    → m ≡ m'
    → IsDateOf number y m d
    → IsDateOf number y' m' d
same_date number d {y} {y'} {m} {m'} ey em h =
    subst (λ k. IsDateOf number k m' d) ey (subst (λ k. IsDateOf number y k d) em h)

by_month :
    (doy y mp : ℕ)
    → shifted_month doy ≡ mp
    → 1 ≤ y
    → doy < 365 + leap_day (y + 1)
    → IsDateOf (march_number y + doy - 305) (calendar_year y mp) (month_of mp) (day_of_month doy)
by_month doy y mp e positive fits = elim (Bool-cases (ltb mp 10)) [
  | inl early ↦
      same_date (march_number y + doy - 305) (day_of_month doy) (sym (early_year y mp early))
        (sym (early_month mp early)) (from_march doy y mp e (ltb→lt mp 10 early) positive)
  | inr late ↦
      same_date (march_number y + doy - 305) (day_of_month doy)
        (sym (late_year y mp (last_month doy y mp e fits) late)) (sym (late_month mp late))
        (to_march doy y mp e (ground (arith, late)) fits)
]

leap_day-next :
    (era doe : ℕ) → leap_day (400 * era + year_of_era doe + 1) ≡ leap_day (year_of_era doe + 1)
leap_day-next era doe = ap leap_day (omega arith) ∙ leap_day_era (year_of_era doe + 1) era

march_number_era :
    (era doe : ℕ)
    → doe < 146_097
    → march_number (400 * era + year_of_era doe) + day_of_year doe ≡ 146_097 * era + doe
march_number_era era doe h = omega (arith, doe-eq doe h, year-bound doe h)

date_in_era :
    (era doe : ℕ)
    → 1 ≤ era
    → doe < 146_097
    → let mp = shifted_month (day_of_year doe) in
      IsDateOf
        (146_097 * era + doe - 305)
        (calendar_year (400 * era + year_of_era doe) mp)
        (month_of mp)
        (day_of_month (day_of_year doe))
date_in_era era doe h inside =
    subst
      (λ k.
        let mp = shifted_month (day_of_year doe) in
        IsDateOf (k - 305) (calendar_year (400 * era + year_of_era doe) mp) (month_of mp)
          (day_of_month (day_of_year doe)))
      (march_number_era era doe inside)
      (by_month (day_of_year doe) (400 * era + year_of_era doe) (shifted_month (day_of_year doe))
        refl (omega (arith, h)) (rw (leap_day-next era doe) (doy-bound doe inside)))

-- Of every day since the epoch the program finds the date of the Gregorian calendar: the month and
-- the day are those of a month of the year, and the number of the date counts on from January 1st of
-- 1970, which is 719,163.
pub civil_from_days-exact :
    (n : ℕ)
    → (y : ℕ) × ((civil_from_days (pos n)).year ≡ pos y)
      × IsDateOf (719_163 + n) y (civil_from_days (pos n)).month (civil_from_days (pos n)).day
unfolding civil_from_days month_of
civil_from_days-exact n =
    let z = n + 719_468 in
    let era = z / 146_097 in
    let doe = z - era * 146_097 in
    let mp = shifted_month (day_of_year doe) in
    let inside : doe < 146_097 = omega arith in
    (
      400 * era + (year_of_era doe + (if leb (month_of mp) 2 then 1 else 0)),
      refl,
      subst
          (λ k.
            IsDateOf k (400 * era + (year_of_era doe + (if leb (month_of mp) 2 then 1 else 0)))
              (month_of mp) (day_of_month (day_of_year doe)))
          (omega arith)
          (same_date (146_097 * era + doe - 305) (day_of_month (day_of_year doe)) (omega arith) refl
            (date_in_era era doe (omega arith) inside)),
    )
