-- ===== src/Gc/PruneExamples.antt =====
-- Pruning the sample destination by a policy that keeps none of its records.
use arq_backup_tui.Common.{◌≡◌, refl, true, false, none, some, List, [], ◌∷◌, list_eq, mem_text}
use arq_backup_tui.Common.Int.{pos}
use arq_backup_tui.Common.Result.{ok}
use arq_backup_tui.Wire.Types.{Text}
use arq_backup_tui.Crypto.Toy.{toy, keyset, old_password}
use arq_backup_tui.Pack.Dict.{get}
use arq_backup_tui.Pack.Builder.{codes}
use arq_backup_tui.Record.Values.{get_field, truth, to_int}
use arq_backup_tui.Layout.Discover.{discover_layout}
use arq_backup_tui.Gc.Disk.{disk_backend}
use arq_backup_tui.Gc.Sample.{cu, record_path, sample}
use arq_backup_tui.Gc.SamplePlaces.{root}
use arq_backup_tui.Retention.Select.{RetentionPolicy, RecordRef}
use arq_backup_tui.Retention.Select.{
  select_retained, is_keep_all, sort_by_date, insert_by_date, newest_first, reverse_onto, keep_last,
  keep_buckets, bucket_loop, mem_key, le_date,
}
use arq_backup_tui.Gc.Prune.{
  PruneRecordsResult, prune_folder, prune_listed, record_refs, record_creation_date, date_of,
  prune_record, prune_refs, prune_records,
}
use arq_backup_tui.Gc.Sample.{python}
use arq_backup_tui.Gc.SampleReads.{sample_records, sample_record}
use arq_backup_tui.Gc.PruneRecords.{Pruned, prune_records-Pruned}
use arq_backup_tui.Gc.PruneKeeps.{Reports, prune_refs-Reports}
use arq_backup_tui.Gc.Sweep.{remove}
use arq_backup_tui.Gc.Disk.{without}

abbrev in_order : List Text → List Text
in_order names = names

abbrev none_kept : RetentionPolicy
none_kept = record {
  keep_last_n = some (pos 0);
  keep_hourly = pos 0;
  keep_daily = pos 0;
  keep_weekly = pos 0;
  keep_monthly = pos 0;
  keep_yearly = pos 0;
}

prune_records-Pruned_example :
    Pruned disk_backend toy python none_kept false root old_password none
      (discover_layout disk_backend in_order sample root 8 true)
      none
      sample
      (prune_records disk_backend toy python none_kept false root in_order old_password none none
        sample).0
prune_records-Pruned_example =
    prune_records-Pruned disk_backend toy python none_kept false root old_password none in_order
      none sample

abbrev refs : List RecordRef
refs =
    record { path = record_path; creation_date = pos 1 }
    ∷ record { path = codes "/other"; creation_date = pos 2 }
    ∷ []

abbrev nothing_done : PruneRecordsResult
nothing_done = record { retained = []; deleted = []; failures = [] }

prune_refs-Reports_example :
    Reports disk_backend false
      (codes "/other" ∷ [])
      refs
      nothing_done
      (prune_refs disk_backend false (codes "/other" ∷ []) refs (sample, nothing_done)).1
prune_refs-Reports_example =
    prune_refs-Reports disk_backend false (codes "/other" ∷ []) refs sample nothing_done

none_selected :
    select_retained
      (record { path = record_path; creation_date = pos 1_709_249_400 } ∷ [])
      none_kept
    ≡ ok []
unfolding select_retained is_keep_all sort_by_date insert_by_date newest_first reverse_onto
    keep_last keep_buckets bucket_loop mem_key list_eq le_date
none_selected = refl

-- The record is deleted.
record_deleted :
    (r : PruneRecordsResult)
    → disk_backend.read_all
        (prune_folder disk_backend toy python none_kept false root keyset cu cu sample r).0
        record_path
      ≡ none
unfolding prune_folder prune_listed record_refs record_creation_date date_of truth to_int get_field
    list_eq prune_refs prune_record mem_text remove get without
record_deleted r =
    rw
      (
        sample_records, prune_folder, sample_record, record_creation_date, none_selected,
        prune_listed,
      )
      refl
