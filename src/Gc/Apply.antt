-- ===== src/Gc/Apply.antt =====
-- `apply_retention`: the records first, then the blobs.
use arq_backup_tui.Common.{
  ℕ, ◌≡◌, refl, Bool, true, false, Option, some, List, ◌⊎◌, inl, inr, ◌∙◌, Bool-cases,
}
use arq_backup_tui.Common.Int.{ℤ}
use arq_backup_tui.Wire.Types.{Text}
use arq_backup_tui.Crypto.Primitives.{Primitives}
use arq_backup_tui.Crypto.Keyset.{Keyset}
use arq_backup_tui.Retention.Select.{RetentionPolicy}
use arq_backup_tui.Backend.{Backend, UnlinkLaws}
use arq_backup_tui.Record.Values.{Python}
use arq_backup_tui.Gc.Sweep.{open_keyset, gc_orphan_blobs}
use arq_backup_tui.Gc.Deletes.{Deletes-none}
use arq_backup_tui.Gc.Computer.{Result-cases}
use arq_backup_tui.Gc.OnlyObjects.{IsObjectFile, gc_orphan_blobs-only_objects}
use arq_backup_tui.Gc.Live.{Place, Named, RootAcl}
use arq_backup_tui.Gc.Same.{InFolders}
use arq_backup_tui.Gc.Spare.{IsSound}
use arq_backup_tui.Gc.Keeps.{gc_orphan_blobs-keeps}
use arq_backup_tui.Layout.Discover.{discover_layout}
use arq_backup_tui.Gc.Prune.{prune_records, apply_retention}
use arq_backup_tui.Gc.PruneRecords.{Pruned-dry_run, prune_records-Pruned}

true_ne_false : {t : Bool} → t ≡ false → t ≡ true → ⊥
true_ne_false e f = cc

module _ {State : Type 0} (b : Backend State) (p : Primitives) (py : Python)
    (policy : RetentionPolicy) (dry_run : Bool) (root : Text) (fuel : ℕ)
    (completed : List Text → List Text) (password : Text)
    (computer_uuid folder_uuid : Option Text) where
  abbrev pruned : State → State
  pruned s =
      (prune_records b p py policy dry_run root completed password computer_uuid folder_uuid s).0

  abbrev collected : State → State
  collected s = (gc_orphan_blobs b p py fuel dry_run root completed password computer_uuid s).0

  -- The blobs are collected in the state that the pruning has left, or not at all.
  applied-cases :
      (run_gc : Bool) (s : State)
      → ((apply_retention b p py policy dry_run root fuel completed password computer_uuid
            folder_uuid run_gc s).0
          ≡ pruned s)
        ⊎ ((apply_retention b p py policy dry_run root fuel completed password computer_uuid
              folder_uuid run_gc s).0
            ≡ collected (pruned s))
  unfolding apply_retention
  applied-cases run_gc s =
      let one =
        prune_records b p py policy dry_run root completed password computer_uuid folder_uuid s in
      let two = gc_orphan_blobs b p py fuel dry_run root completed password computer_uuid one.0 in
      elim (Result-cases one.1) [
        | inl (e, failed) ↦ inl (rw (failed, apply_retention) refl)
        | inr (r, returned) ↦ elim (Bool-cases run_gc) [
          | inr no_gc ↦ inl (rw (returned, no_gc, apply_retention) refl)
          | inl with_gc ↦ elim (Result-cases two.1) [
            | inl (e, failed) ↦ inr (rw (returned, with_gc, failed, apply_retention) refl)
            | inr (g, finished) ↦ inr (rw (returned, with_gc, finished, apply_retention) refl)
          ]
        ]
      ]

  -- A dry run of apply_retention leaves the files as they are, however it ends.
  pub apply_retention-dry_run :
      dry_run ≡ true
      → (run_gc : Bool) (s : State)
      → (apply_retention b p py policy dry_run root fuel completed password computer_uuid
          folder_uuid run_gc s).0
        ≡ s
  apply_retention-dry_run dry run_gc s =
      let no_prune : pruned s ≡ s =
        Pruned-dry_run b p py policy dry_run root password folder_uuid
          (discover_layout b completed s root 8 true) computer_uuid s dry
          (prune_records-Pruned b p py policy dry_run root password folder_uuid completed
            computer_uuid s) in
      let no_gc : collected (pruned s) ≡ pruned s =
        Deletes-none b (λ path (d : IsObjectFile dry_run root path). true_ne_false d.0 dry)
          (gc_orphan_blobs-only_objects b p py fuel dry_run root completed password computer_uuid
            (pruned s)) in
      elim (applied-cases run_gc s) [ inl e ↦ e ∙ no_prune | inr e ↦ e ∙ no_gc ∙ no_prune ]

  -- With the destination sound after the pruning, its keyset opened by the password, and a backend whose
  -- deletions leave other files alone, apply_retention leaves every blob that a surviving record of the
  -- computer or a tree below one names, save the ACL of a record's own node, readable as after the pruning,
  -- and every file in the folders of its records. Records and trees that cannot be read name nothing.
  pub apply_retention-keeps :
      {Apart Outside : Text → Text → Type 0} (laws : UnlinkLaws b Apart Outside) (cu : Text)
      (keyset : Keyset) (s : State)
      → IsSound b p py Apart Outside root cu keyset (pruned s)
      → open_keyset b p root password (pruned s) cu ≡ some keyset
      → (run_gc : Bool)
      → let s' =
          (apply_retention b p py policy dry_run root fuel completed password computer_uuid
            folder_uuid run_gc s).0 in
        ((place : Place)
          → Named b p py keyset root cu (pruned s) place
          → (RootAcl b p py keyset root cu (pruned s) place → ⊥)
          → (b.read_all s' place.path ≡ b.read_all (pruned s) place.path)
            × ((offset size : ℤ)
                → b.read_range s' place.path offset size
                  ≡ b.read_range (pruned s) place.path offset size))
        × ((q : Text) → InFolders root cu q → b.read_all s' q ≡ b.read_all (pruned s) q)
  apply_retention-keeps laws cu keyset s sound opened run_gc =
      let kept =
        gc_orphan_blobs-keeps b p py laws root cu keyset (pruned s) sound fuel dry_run password
          opened completed computer_uuid in
      elim (applied-cases run_gc s) [
        | inl e ↦ rw e ((λ place named no_acl. (refl, λ offset size. refl)), λ q h. refl)
        | inr e ↦ rw e kept
      ]
