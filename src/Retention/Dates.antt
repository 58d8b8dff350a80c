-- ===== src/Retention/Dates.antt =====
-- `datetime.fromtimestamp(..., tz=utc)` and `_bucket_key` of arq_writer/retention.py: the calendar of
-- Python's datetime module, from the seconds since 0001-01-01.
use arq_backup_tui.Common.{
  ℕ, ◌+◌, ◌-◌, ◌*◌, ◌/◌, ◌%◌, Bool, not, ◌&&◌, ◌||◌, List, [], ◌∷◌, get_or, ltb, ◌==◌,
  if◌then◌else◌,
}
use arq_backup_tui.Common.Int.{ℤ, pos, negsuc}
use arq_backup_tui.Common.Result.{Result, ok, err}

-- Unix time of 0001-01-01, negated, and of 10000-01-01.
abbrev pub epoch_offset : ℕ
epoch_offset = 62_135_596_800

abbrev pub calendar_end : ℕ
calendar_end = 253_402_300_800

unfoldable pub in_calendar : ℤ → Bool
in_calendar (pos n) = ltb n calendar_end
in_calendar (negsuc n) = ltb n epoch_offset

unfoldable pub since_year_one : ℤ → ℕ
since_year_one (pos n) = n + epoch_offset
since_year_one (negsuc n) = epoch_offset - 1 - n

-- The `ValueError` of a time outside the years 1 to 9999.
pub data DateError : Type 0 where
  date_out_of_range : DateError

unfoldable pub from_timestamp : ℤ → Result DateError ℕ
from_timestamp date = if in_calendar date then ok (since_year_one date) else err date_out_of_range

pub record Civil : Type 0 where
  pub year : ℕ
  pub month : ℕ
  pub day : ℕ

-- Days before each month of a common year.
abbrev days_before : List ℕ
days_before = 0 ∷ 31 ∷ 59 ∷ 90 ∷ 120 ∷ 151 ∷ 181 ∷ 212 ∷ 243 ∷ 273 ∷ 304 ∷ 334 ∷ []

unfoldable pub month_start : Bool → ℕ → ℕ
month_start leap month = get_or days_before (month - 1) 0 + (if leap && ltb 2 month then 1 else 0)

-- The month (from 1) and day of the `n`-th day of a year, from an estimate that is at most one too high.
unfoldable pub in_year : ℕ → Bool → ℕ → Civil
in_year year leap n =
    let guess = (n + 50) / 32 in
    let month = if ltb n (month_start leap guess) then guess - 1 else guess in
    record { year = year; month = month; day = n - month_start leap month + 1 }

-- The date of the `n`-th day from 0001-01-01 on, by cycles of 400, 100, 4 and 1 years.
unfoldable pub civil : ℕ → Civil
civil n =
    let n400 = n / 146_097 in
    let r400 = n % 146_097 in
    let n100 = r400 / 36_524 in
    let r100 = r400 % 36_524 in
    let n4 = r100 / 1_461 in
    let r4 = r100 % 1_461 in
    let n1 = r4 / 365 in
    let r1 = r4 % 365 in
    let year = n400 * 400 + n100 * 100 + n4 * 4 + n1 + 1 in
    if n1 == 4 || n100 == 4
    then record { year = year - 1; month = 12; day = 31 }
    else in_year year (n1 == 3 && (not (n4 == 24) || n100 == 3)) r1

-- The days from 0001-01-01 to the first day of a year.
unfoldable pub days_before_year : ℕ → ℕ
days_before_year year = (year - 1) * 365 + (year - 1) / 4 - (year - 1) / 100 + (year - 1) / 400

-- The ISO year and week: those of the week's Thursday. 0001-01-01 is a Monday.
unfoldable pub iso_week : ℕ → List ℕ
iso_week n =
    let thursday = n - n % 7 + 3 in
    let year = (civil thursday).year in year ∷ ((thursday - days_before_year year) / 7 + 1) ∷ []

pub data Kind : Type 0 where
  hourly daily weekly monthly yearly : Kind

-- `_bucket_key`: the tuple as a list. The kind is always one of the five.
unfoldable pub bucket_key : Kind → ℕ → List ℕ
bucket_key hourly t =
    let d = civil (t / 86_400) in d.year ∷ d.month ∷ d.day ∷ (t % 86_400 / 3_600) ∷ []
bucket_key daily t = let d = civil (t / 86_400) in d.year ∷ d.month ∷ d.day ∷ []
bucket_key weekly t = iso_week (t / 86_400)
bucket_key monthly t = let d = civil (t / 86_400) in d.year ∷ d.month ∷ []
bucket_key yearly t = let d = civil (t / 86_400) in d.year ∷ []
