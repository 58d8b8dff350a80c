-- ===== src/Gc/PruneRecords.antt =====
-- `prune_records` as steps, one for each folder: it deletes only records that its policy does not keep.
use arq_backup_tui.Common.{
  In, ◌≡◌, refl, ap, ◌∙◌, true, Bool, Bool-cases, false, Option, none, some, list_eq, list_eq_iff,
  Option-cases, List, [], ◌∷◌, inl, inr, mem_text, Has,
}
use arq_backup_tui.Common.Result.{ok}
use arq_backup_tui.Wire.Types.{Text}
use arq_backup_tui.Crypto.Primitives.{Primitives}
use arq_backup_tui.Crypto.Keyset.{Keyset}
use arq_backup_tui.Retention.Select.{RetentionPolicy, RecordRef, select_retained}
use arq_backup_tui.Backend.{Backend}
use arq_backup_tui.Record.Values.{Python}
use arq_backup_tui.Layout.Discover.{Arq7ComputerLayout, discover_layout}
use arq_backup_tui.Layout.Records.{list_backuprecords}
use arq_backup_tui.Gc.Sweep.{open_keyset, chosen}
use arq_backup_tui.Gc.Deletes.{Deletes, Deletes-refl, Deletes-mono, Deletes-none}
use arq_backup_tui.Gc.Computer.{Result-cases}
use arq_backup_tui.Gc.Prune.{
  PruneRecordsResult, prune_failed, folder_iter, record_refs, prune_listed, prune_folder,
  prune_folders, prune_layouts, prune_records,
}
use arq_backup_tui.Gc.PruneKeeps.{paths_of, prune_refs-Deletes}

-- What a caller may have chosen: a value, or none, which allows every one.
abbrev pub Allows : Option Text → Text → Type 0
Allows none t = Unit
Allows (some chosen_one) t = t ≡ chosen_one

-- The folders of a run over a computer: the chosen folder, or those of the computer.
abbrev pub IsFolder : Option Text → List Text → Text → Type 0
IsFolder none folders fu = In fu folders
IsFolder (some chosen_one) folders fu = fu ≡ chosen_one

chosen-In :
    (computer_uuid : Option Text) (layouts : List Arq7ComputerLayout) (layout : Arq7ComputerLayout)
    → In layout (chosen computer_uuid layouts)
    → In layout layouts × Allows computer_uuid layout.computer_uuid
unfolding chosen
chosen-In none layouts layout h = (h, tt)
chosen-In (some cu) [] layout h = absurd h
chosen-In (some cu) (l ∷ layouts) layout h = elim (Bool-cases (list_eq l.computer_uuid cu)) [
  | inl same ↦
      let h1 : In layout (l ∷ chosen (some cu) layouts) = rw same at h in
      elim h1 [
        | inl e ↦ (inl e, ap (λ x. x.computer_uuid) e ∙ (list_eq_iff l.computer_uuid cu).0 same)
        | inr later ↦
            let (m, allowed) = chosen-In (some cu) layouts layout later in (inr m, allowed)
      ]
  | inr other ↦
      let h1 : In layout (chosen (some cu) layouts) = rw other at h in
      let (m, allowed) = chosen-In (some cu) layouts layout h1 in (inr m, allowed)
]

folder_iter-IsFolder :
    (folder_uuid : Option Text) (folders : List Text) (fu : Text)
    → In fu (folder_iter folder_uuid folders)
    → IsFolder folder_uuid folders fu
folder_iter-IsFolder none folders fu h = h
folder_iter-IsFolder (some f) folders fu (inl e) = e
folder_iter-IsFolder (some f) folders fu (inr h) = absurd h

module _ {State : Type 0} (b : Backend State) (p : Primitives) (py : Python)
    (policy : RetentionPolicy) (dry_run : Bool) (root password : Text)
    (folder_uuid : Option Text) where
  -- A record of a folder that the policy does not keep of the folder's records, in a run that deletes.
  -- The keyset is that of the folder's computer, and `s` the state in which the folder is listed.
  pub record IsPruned (keyset : Keyset) (computer folder : Text) (s : State) (path : Text)
      : Type 0 where
    pub wet : dry_run ≡ false
    pub paths : List Text
    pub refs : List RecordRef
    pub keep : List Text
    pub listed : list_backuprecords b py s root computer folder ≡ some paths
    pub dated : record_refs b p py keyset s paths ≡ some refs
    pub selected : select_retained refs policy ≡ ok keep
    pub is_record : Has (paths_of refs) path
    pub not_kept : mem_text path keep ≡ false

  module _ (discovered : List Arq7ComputerLayout) (computer_uuid : Option Text) (s0 : State) where
    -- The states that the run goes through. `opened` is the state in which the computer's keyset is opened:
    -- the run has been there too.
    pub data Pruned : State → Type 0 where
      start : Pruned s0
      folder :
          {opened s s' : State} (layout : Arq7ComputerLayout) (keyset : Keyset) (fu : Text)
          → In layout discovered
          → Allows computer_uuid layout.computer_uuid
          → Pruned opened
          → open_keyset b p root password opened layout.computer_uuid ≡ some keyset
          → IsFolder folder_uuid layout.backup_folder_uuids fu
          → Pruned s
          → Deletes b (IsPruned keyset layout.computer_uuid fu s) s s'
          → Pruned s'

  prune_listed-Deletes :
      (keyset : Keyset) (cu fu : Text) (paths : List Text) (s : State) (r : PruneRecordsResult)
      → list_backuprecords b py s root cu fu ≡ some paths
      → Deletes b
          (IsPruned keyset cu fu s)
          s
          (prune_listed b p py policy dry_run root keyset paths s r).0
  unfolding prune_listed
  prune_listed-Deletes keyset cu fu paths s r listed =
      elim (Option-cases (record_refs b p py keyset s paths)) [
        | inl none_e ↦ rw (none_e, prune_listed) (Deletes-refl b s)
        | inr (refs, dated) ↦ elim (Result-cases (select_retained refs policy)) [
          | inl (e, failed) ↦ rw (dated, failed, prune_listed) (Deletes-refl b s)
          | inr (keep, selected) ↦
              rw (dated, selected, prune_listed)
                (Deletes-mono b
                  (λ path (wet, is_record, left). record {
                    wet = wet;
                    paths = paths;
                    refs = refs;
                    keep = keep;
                    listed = listed;
                    dated = dated;
                    selected = selected;
                    is_record = is_record;
                    not_kept = left;
                  })
                  (prune_refs-Deletes b dry_run keep refs (s, r)))
        ]
      ]

  prune_folder-Deletes :
      (keyset : Keyset) (cu fu : Text) (s : State) (r : PruneRecordsResult)
      → Deletes b
          (IsPruned keyset cu fu s)
          s
          (prune_folder b p py policy dry_run root keyset cu fu s r).0
  unfolding prune_folder
  prune_folder-Deletes keyset cu fu s r =
      elim (Option-cases (list_backuprecords b py s root cu fu)) [
        | inl none_e ↦ rw (none_e, prune_folder) (Deletes-refl b s)
        | inr ([], some_e) ↦ rw (some_e, prune_folder) (Deletes-refl b s)
        | inr (path ∷ paths, some_e) ↦
            rw (some_e, prune_folder) (prune_listed-Deletes keyset cu fu (path ∷ paths) s r some_e)
      ]

  module _ (discovered : List Arq7ComputerLayout) (computer_uuid : Option Text) (s0 : State) where
    abbrev Reached : State → Type 0
    Reached = Pruned discovered computer_uuid s0

    abbrev InRun : Arq7ComputerLayout → Type 0
    InRun layout = In layout discovered × Allows computer_uuid layout.computer_uuid

    prune_folders-Pruned :
        (opened : State) (layout : Arq7ComputerLayout) (keyset : Keyset)
        → InRun layout
        → Reached opened
        → open_keyset b p root password opened layout.computer_uuid ≡ some keyset
        → (folders : List Text)
        → ((fu : Text) → In fu folders → IsFolder folder_uuid layout.backup_folder_uuids fu)
        → (s : State) (r : PruneRecordsResult) → Reached s
        → Reached
            (prune_folders b p py policy dry_run root keyset layout.computer_uuid folders s r).0
    unfolding prune_folders
    prune_folders-Pruned opened layout keyset m o e [] sub s r reached = reached
    prune_folders-Pruned opened layout keyset m o e (fu ∷ folders) sub s r reached =
        let cu = layout.computer_uuid in
        let out = prune_folder b p py policy dry_run root keyset cu fu s r in
        let one : Reached out.0 =
          folder layout keyset fu m.0 m.1 o e (sub fu (inl refl)) reached
            (prune_folder-Deletes keyset cu fu s r) in
        elim (Result-cases out.1) [
          | inl (f, failed) ↦ rw (failed, prune_folders) one
          | inr (r', returned) ↦
              rw (returned, prune_folders)
                (prune_folders-Pruned opened layout keyset m o e folders (λ u h. sub u (inr h))
                  out.0 r' one)
        ]

    prune_layouts-Pruned :
        (todo : List Arq7ComputerLayout)
        → ((layout : Arq7ComputerLayout) → In layout todo → InRun layout)
        → (s : State) (r : PruneRecordsResult) → Reached s
        → Reached (prune_layouts b p py policy dry_run root password folder_uuid todo s r).0
    unfolding prune_layouts
    prune_layouts-Pruned [] sub s r reached = reached
    prune_layouts-Pruned (layout ∷ todo) sub s r reached =
        let cu = layout.computer_uuid in
        elim (Option-cases (open_keyset b p root password s cu)) [
          | inl none_e ↦
              rw (none_e, prune_layouts)
                (prune_layouts-Pruned todo (λ l h. sub l (inr h)) s (prune_failed cu r) reached)
          | inr (keyset, some_e) ↦
              let folders = folder_iter folder_uuid layout.backup_folder_uuids in
              let out = prune_folders b p py policy dry_run root keyset cu folders s r in
              let one : Reached out.0 =
                prune_folders-Pruned s layout keyset (sub layout (inl refl)) reached some_e folders
                  (folder_iter-IsFolder folder_uuid layout.backup_folder_uuids) s r reached in
              elim (Result-cases out.1) [
                | inl (e, failed) ↦ rw (some_e, failed, prune_layouts) one
                | inr (r', returned) ↦
                    rw (some_e, returned, prune_layouts)
                      (prune_layouts-Pruned todo (λ l h. sub l (inr h)) out.0 r' one)
              ]
        ]

    Deletes-dry_run :
        (dry : dry_run ≡ true) (keyset : Keyset) (cu fu : Text) {s s' : State}
        → Deletes b (IsPruned keyset cu fu s) s s'
        → s' ≡ s
    Deletes-dry_run dry keyset cu fu d =
        Deletes-none b (λ path (h : IsPruned keyset cu fu _ path). both h.wet dry) d
      where
        both : dry_run ≡ false → dry_run ≡ true → ⊥
        both e f = cc

    pub Pruned-dry_run : {s : State} → dry_run ≡ true → Reached s → s ≡ s0
    Pruned-dry_run dry start = refl
    Pruned-dry_run dry (folder layout keyset fu m allowed o e f reached d) =
        Deletes-dry_run dry keyset layout.computer_uuid fu d ∙ Pruned-dry_run dry reached

  -- However prune_records ends, the files have gone through steps, one for each folder of a computer of the
  -- run: the computer is one that the layout discovers, the chosen one if one is chosen, and the folder one
  -- of its folders, or the chosen one. A step deletes only records that list_backuprecords gives for the
  -- folder and that select_retained leaves out of them, by the dates that they have under the computer's
  -- keyset; in a dry run it deletes none.
  pub prune_records-Pruned :
      (completed : List Text → List Text) (computer_uuid : Option Text) (s : State)
      → Pruned
          (discover_layout b completed s root 8 true)
          computer_uuid
          s
          (prune_records b p py policy dry_run root completed password computer_uuid folder_uuid
            s).0
  unfolding prune_records
  prune_records-Pruned completed computer_uuid s =
      let discovered = discover_layout b completed s root 8 true in
      prune_layouts-Pruned discovered computer_uuid s (chosen computer_uuid discovered)
        (chosen-In computer_uuid discovered) s _ start
