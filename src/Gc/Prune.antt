-- ===== src/Gc/Prune.antt =====
-- `_record_creation_date`, `prune_records` and `apply_retention`.
use arq_backup_tui.Common.{
  ℕ, Bool, true, false, Option, none, some, List, [], ◌∷◌, ◌++◌, if◌then◌else◌, mem_text,
}
use arq_backup_tui.Common.Int.{ℤ, pos}
use arq_backup_tui.Common.Result.{Result, ok, err}
use arq_backup_tui.Wire.Types.{Text}
use arq_backup_tui.Crypto.Primitives.{Primitives}
use arq_backup_tui.Crypto.Keyset.{Keyset}
use arq_backup_tui.Pack.Builder.{codes}
use arq_backup_tui.Retention.Select.{RetentionPolicy, RecordRef, select_retained}
use arq_backup_tui.Backend.{Backend}
use arq_backup_tui.Record.Values.{Value, opaque, get_field, Python, truth, to_int}
use arq_backup_tui.Layout.Discover.{Arq7ComputerLayout, discover_layout}
use arq_backup_tui.Layout.Records.{list_backuprecords}
use arq_backup_tui.Gc.Walk.{Failure, raised}
use arq_backup_tui.Gc.Collect.{record_at}
use arq_backup_tui.Gc.Sweep.{GcResult, chosen, remove, open_keyset, gc_orphan_blobs}

pub record PruneRecordsResult : Type 0 where
  pub deleted : List Text
  pub retained : List Text
  pub failures : List Text

pub record RetentionResult : Type 0 where
  pub prune : PruneRecordsResult
  pub gc : Option GcResult

unfoldable pub prune_failed : Text → PruneRecordsResult → PruneRecordsResult
prune_failed path r = record r { failures = r.failures ++ path ∷ [] }

abbrev overflow_of : Python → Value → Bool
overflow_of py (opaque n) = py.overflows n
overflow_of py other = false

-- `int(value or 0)`, where a TypeError or a ValueError gives 0; `none` for the OverflowError.
unfoldable pub date_of : Python → Value → Option ℤ
date_of py value =
    if truth py value
    then (elim (to_int py value) [
      | some date ↦ some date
      | none ↦ if overflow_of py value then none else some (pos 0)
    ])
    else some (pos 0)

module _ {State : Type 0} (b : Backend State) where
  -- The two branches of the loop that deletes.
  unfoldable pub prune_record :
      Bool → List Text → Text → State × PruneRecordsResult → State × PruneRecordsResult
  prune_record dry_run keep path (s, r) =
      if mem_text path keep
      then (s, record r { retained = r.retained ++ path ∷ [] })
      else (elim (remove b dry_run s path) [
        | none ↦ (s, prune_failed path r)
        | some s' ↦ (s', record r { deleted = r.deleted ++ path ∷ [] })
      ])

  unfoldable pub prune_refs :
      Bool → List Text → List RecordRef → State × PruneRecordsResult → State × PruneRecordsResult
  prune_refs dry_run keep [] a = a
  prune_refs dry_run keep (ref ∷ refs) a =
      prune_refs dry_run keep refs (prune_record dry_run keep ref.path a)

abbrev pub folder_iter : Option Text → List Text → List Text
folder_iter none folders = folders
folder_iter (some fu) folders = fu ∷ []

module _ {State : Type 0} (b : Backend State) (p : Primitives) (py : Python) where
  unfoldable pub record_creation_date : Keyset → State → Text → Option ℤ
  record_creation_date keyset s path = elim (record_at b p py keyset s path) [
    | none ↦ some (pos 0)
    | some rec ↦ date_of py (get_field rec (codes "creationDate"))
  ]

  unfoldable pub record_refs : Keyset → State → List Text → Option (List RecordRef)
  record_refs keyset s [] = some []
  record_refs keyset s (path ∷ paths) = elim (record_creation_date keyset s path) [
    | none ↦ none
    | some date ↦ elim (record_refs keyset s paths) [
      | none ↦ none
      | some refs ↦ some (record { path = path; creation_date = date } ∷ refs)
    ]
  ]

  module _ (policy : RetentionPolicy) (dry_run : Bool) (root : Text) where
    -- The state that a call leaves, and its result unless it raises.
    abbrev Outcome : Type 0
    Outcome = State × Result Failure PruneRecordsResult

    unfoldable pub prune_listed : Keyset → List Text → State → PruneRecordsResult → Outcome
    prune_listed keyset paths s r = elim (record_refs keyset s paths) [
      | none ↦ (s, err raised)
      | some refs ↦ elim (select_retained refs policy) [
        | err e ↦ (s, err raised)
        | ok keep ↦ let a = prune_refs b dry_run keep refs (s, r) in (a.0, ok a.1)
      ]
    ]

    unfoldable pub prune_folder : Keyset → Text → Text → State → PruneRecordsResult → Outcome
    prune_folder keyset cu fu s r = elim (list_backuprecords b py s root cu fu) [
      | none ↦ (s, err raised)
      | some [] ↦ (s, ok r)
      | some (path ∷ paths) ↦ prune_listed keyset (path ∷ paths) s r
    ]

    unfoldable pub prune_folders : Keyset → Text → List Text → State → PruneRecordsResult → Outcome
    prune_folders keyset cu [] s r = (s, ok r)
    prune_folders keyset cu (fu ∷ folders) s r =
        let (s', outcome) = prune_folder keyset cu fu s r in
        elim outcome [
          | err failure ↦ (s', err failure)
          | ok r' ↦ prune_folders keyset cu folders s' r'
        ]

    unfoldable pub prune_layouts :
        Text → Option Text → List Arq7ComputerLayout → State → PruneRecordsResult → Outcome
    prune_layouts password folder_uuid [] s r = (s, ok r)
    prune_layouts password folder_uuid (layout ∷ layouts) s r =
        let cu = layout.computer_uuid in
        elim (open_keyset b p root password s cu) [
          | none ↦ prune_layouts password folder_uuid layouts s (prune_failed cu r)
          | some keyset ↦
              let (s', outcome) =
                prune_folders keyset cu (folder_iter folder_uuid layout.backup_folder_uuids) s r in
              elim outcome [
                | err failure ↦ (s', err failure)
                | ok r' ↦ prune_layouts password folder_uuid layouts s' r'
              ]
        ]

    unfoldable pub prune_records :
        (List Text → List Text) → Text → Option Text → Option Text → State → Outcome
    prune_records completed password computer_uuid folder_uuid s =
        prune_layouts password folder_uuid
          (chosen computer_uuid (discover_layout b completed s root 8 true)) s
          (record { deleted = []; retained = []; failures = [] })

    unfoldable pub apply_retention :
        ℕ
        → (List Text → List Text)
        → Text
        → Option Text
        → Option Text
        → Bool
        → State
        → State × Result Failure RetentionResult
    apply_retention fuel completed password computer_uuid folder_uuid run_gc s =
        let (s1, outcome) = prune_records completed password computer_uuid folder_uuid s in
        elim outcome [
          | err failure ↦ (s1, err failure)
          | ok pruned ↦
              if run_gc
              then (let (s2, collected) =
                    gc_orphan_blobs b p py fuel dry_run root completed password computer_uuid s1 in
                  elim collected [
                    | err failure ↦ (s2, err failure)
                    | ok result ↦ (s2, ok record { prune = pruned; gc = some result })
                  ])
              else (s1, ok record { prune = pruned; gc = none })
        ]
