-- ===== src/Write/Wal.antt =====
-- src/write/wal.rs: the keys of log segments, with the civil date of a timestamp, and the log itself.
use Prim.Native.String.{◌++◌}
use ltsearch.Common.{
  ℕ, suc, ◌+◌, ◌-◌, ◌*◌, ◌/◌, String, not, ◌||◌, Result, ok, leb, ltb, if◌then◌else◌,
}
use ltsearch.Common.Outcome.{guard, ◌>>◌}
use ltsearch.Common.Signed.{ℤ, pos, negsuc, minus, add_to, div_euclid}
use ltsearch.Common.Text.{is_empty, contains_char, contains_text, padded}
use ltsearch.Errors.{IngestError, validation, invalid_value}

-- Year, month and day.
pub record Civil : Type 0 where
  pub year : ℤ
  pub month : ℕ
  pub day : ℕ

-- The steps of `civil_from_days` from the day of an era on: no difference in them is negative.
unfoldable pub year_of_era : ℕ → ℕ
year_of_era doe = (doe - doe / 1_460 + doe / 36_524 - doe / 146_096) / 365

unfoldable pub day_of_year : ℕ → ℕ
unfolding year_of_era
day_of_year doe = let yoe = year_of_era doe in doe - (365 * yoe + yoe / 4 - yoe / 100)

unfoldable pub shifted_month : ℕ → ℕ
shifted_month doy = (5 * doy + 2) / 153

unfoldable pub day_of_month : ℕ → ℕ
unfolding shifted_month
day_of_month doy = doy - (153 * shifted_month doy + 2) / 5 + 1

unfoldable pub month_of : ℕ → ℕ
month_of mp = if ltb mp 10 then mp + 3 else mp - 9

-- The number of the era and the day in it, from `z`: the division truncates towards zero, so that of
-- a negative `z` is of `z - 146_096`. An era is given as its first year.
abbrev era_and_day : ℤ → ℤ × ℕ
era_and_day (pos z) = (pos (400 * (z / 146_097)), z - z / 146_097 * 146_097)
era_and_day (negsuc n) =
    let back = (suc n + 146_096) / 146_097 in (minus 0 (400 * back), back * 146_097 - suc n)

unfoldable pub civil_from_days : ℤ → Civil
unfolding year_of_era day_of_year shifted_month day_of_month month_of
civil_from_days days_since_epoch =
    let (era_year, doe) = era_and_day (add_to 719_468 days_since_epoch) in
    let doy = day_of_year doe in
    let month = month_of (shifted_month doy) in
    record {
      year = add_to (year_of_era doe + (if leb month 2 then 1 else 0)) era_year;
      month = month;
      day = day_of_month doy;
    }

-- b'/' and b'\\'
unfoldable pub validate_segment_id : String → Result IngestError (Unit {0})
unfolding contains_text contains_char
validate_segment_id id =
    guard (not (is_empty id || contains_char 47 id || contains_text ".." id || contains_char 92 id))
      (validation (invalid_value "segment_id"))

-- `{year:04}`, where the sign counts.
abbrev year_text : ℤ → String
unfolding padded
year_text (pos n) = padded 4 n
year_text (negsuc n) = "-" ++ padded 3 (suc n)

unfoldable pub segment_key : ℤ → String → Result IngestError String
unfolding validate_segment_id civil_from_days padded
segment_key timestamp_millis segment_id =
    let date = civil_from_days (div_euclid timestamp_millis 86_400_000) in
    do
      validate_segment_id segment_id
      ok (
          "wal/"
          ++ (year_text date.year
              ++ ("/"
                  ++ (padded 2 date.month
                      ++ ("/" ++ (padded 2 date.day ++ ("/" ++ (segment_id ++ ".jsonl"))))))))
