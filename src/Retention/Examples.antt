-- ===== src/Retention/Examples.antt =====
-- Retention on concrete records.
use arq_backup_tui.Common.{
  In, ℕ, ◌+◌, ◌≤◌, ◌≡◌, refl, false, some, List, [], ◌∷◌, arith, All, list_eq, if◌then◌else◌,
}
use arq_backup_tui.Common.Int.{pos, negsuc}
use arq_backup_tui.Common.Result.{ok}
use arq_backup_tui.Wire.Types.{Text}
use arq_backup_tui.Retention.Dates.{
  hourly, weekly, bucket_key, civil, in_year, month_start, iso_week, days_before_year,
  from_timestamp, in_calendar, since_year_one,
}
use arq_backup_tui.Retention.Select.{
  RetentionPolicy, RecordRef, is_keep_all, le_date, insert_by_date, sort_by_date, reverse_onto,
  newest_first, mem_key, keep_last, bucket_of, bucket_loop, keep_buckets, select_retained,
}
use arq_backup_tui.Retention.Reference.{IsDated, paths, kept_paths}
use arq_backup_tui.Retention.Described.{Descending, select_retained-kept_paths}
use mathlib.Core.List.{Permᴰ}
use arq_backup_tui.Retention.Newest.{IsNotNewer}
use arq_backup_tui.Retention.Limits.{select_retained-length, select_retained-newest}

-- 2024-02-29 23:30:00 UTC, a Thursday of ISO week 9.
hourly_leap_day : bucket_key hourly (1_709_249_400 + 62_135_596_800) ≡ 2024 ∷ 2 ∷ 29 ∷ 23 ∷ []
unfolding bucket_key civil in_year month_start
hourly_leap_day = refl

-- 2021-01-03 is in week 53 of 2020; 2024-12-30 is in week 1 of 2025.
weekly_year_ends :
    (bucket_key weekly (1_609_632_000 + 62_135_596_800) ≡ 2020 ∷ 53 ∷ [])
    × (bucket_key weekly (1_735_516_800 + 62_135_596_800) ≡ 2025 ∷ 1 ∷ [])
unfolding bucket_key civil in_year month_start iso_week days_before_year
weekly_year_ends = (refl, refl)

abbrev record_at : ℕ → ℕ → RecordRef
record_at name time = record { path = name ∷ []; creation_date = pos time }

-- Three records of one day, one of the day before, one from before 1970.
abbrev first_record : RecordRef
first_record = record_at 97 1_709_249_400

abbrev others : List RecordRef
others =
    record_at 98 1_709_163_000
    ∷ record_at 99 1_709_240_000
    ∷ record_at 100 1_709_249_100
    ∷ record { path = 101 ∷ []; creation_date = negsuc 86_400 }
    ∷ []

abbrev two_daily : RetentionPolicy
two_daily = record {
  keep_last_n = some (pos 1);
  keep_hourly = pos 0;
  keep_daily = pos 2;
  keep_weekly = negsuc 0;
  keep_monthly = pos 0;
  keep_yearly = pos 1;
}

abbrev kept_sample : List Text
kept_sample = (97 ∷ []) ∷ (97 ∷ []) ∷ (98 ∷ []) ∷ (97 ∷ []) ∷ []

select_sample : select_retained (first_record ∷ others) two_daily ≡ ok kept_sample
unfolding select_retained newest_first sort_by_date insert_by_date le_date reverse_onto is_keep_all
    keep_last keep_buckets bucket_loop bucket_of from_timestamp in_calendar since_year_one
    bucket_key civil in_year month_start mem_key list_eq
select_sample = refl

IsDated-sample : All IsDated (first_record ∷ others)
unfolding in_calendar
IsDated-sample = (refl, (refl, (refl, (refl, (refl, tt)))))

select_retained-kept_paths_example :
    (newest : List RecordRef) × Permᴰ newest (first_record ∷ others)
    × Descending newest
    × (select_retained (first_record ∷ others) two_daily
        ≡ ok (
            if is_keep_all two_daily
            then paths (first_record ∷ others)
            else kept_paths two_daily newest))
select_retained-kept_paths_example =
    select_retained-kept_paths (first_record ∷ others) two_daily IsDated-sample

not_keep_all : is_keep_all two_daily ≡ false
unfolding is_keep_all
not_keep_all = refl

select_retained-length_example : 4 ≤ 4
select_retained-length_example =
    select_retained-length (first_record ∷ others) two_daily kept_sample IsDated-sample not_keep_all
      select_sample

select_retained-newest_example :
    (m : RecordRef) × In m (first_record ∷ others)
    × In m.path kept_sample
    × All (IsNotNewer m) (first_record ∷ others)
select_retained-newest_example =
    select_retained-newest first_record others two_daily kept_sample IsDated-sample one_le_four
      select_sample
  where
    one_le_four : 1 ≤ 4
    one_le_four = omega arith
