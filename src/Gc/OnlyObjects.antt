-- ===== src/Gc/OnlyObjects.antt =====
-- What `gc_orphan_blobs` may delete at all, with no assumption on the destination.
use arq_backup_tui.Common.{ℕ, ◌≡◌, refl, Bool, true, false, Option, List, inl, inr}
use arq_backup_tui.Wire.Types.{Text}
use arq_backup_tui.Crypto.Primitives.{Primitives}
use arq_backup_tui.Backend.{Backend}
use arq_backup_tui.Record.Values.{Python}
use arq_backup_tui.Layout.Paths.{standardobjects_dir, object_path, IsComputer}
use arq_backup_tui.Gc.Sweep.{gc_orphan_blobs}
use arq_backup_tui.Gc.Deletes.{Deletes, Deletes-refl}
use arq_backup_tui.Gc.Computer.{gc_computer-Deletes, gc_layouts-Deletes, discovered-IsComputer}
use arq_backup_tui.Gc.Spare.{IsFamily}

-- A file of one of the four families, in a run that deletes.
abbrev pub IsObjectFile : Bool → Text → Text → Type 0
IsObjectFile dry_run root path =
    (dry_run ≡ false)
    × ((cu : Text) × IsComputer cu
        × (family : Text) × (shard : Text) × (name : Text) × IsFamily family
        × (path ≡ object_path root cu family shard name))

module _ {State : Type 0} (b : Backend State) (p : Primitives) (py : Python) (fuel : ℕ)
    (dry_run : Bool) (root : Text) where
  -- All that gc_orphan_blobs does to the files, however it ends, is a sequence of deletions of files two
  -- levels below standardobjects, treepacks, blobpacks or largeblobpacks of a computer, and in a dry run
  -- of none.
  pub gc_orphan_blobs-only_objects :
      (completed : List Text → List Text) (password : Text) (computer_uuid : Option Text)
      (s : State)
      → Deletes b
          (IsObjectFile dry_run root)
          s
          (gc_orphan_blobs b p py fuel dry_run root completed password computer_uuid s).0
  unfolding gc_orphan_blobs object_path
  gc_orphan_blobs-only_objects completed password computer_uuid s =
      gc_layouts-Deletes b p py fuel dry_run root (IsObjectFile dry_run root) s password
        (λ cu keyset s1 r c d opened.
          gc_computer-Deletes b p py fuel dry_run root (IsObjectFile dry_run root) keyset cu s1 r
            (λ referenced returned path (wet, (shard, name, e, orphan)).
              (wet, (cu, c, standardobjects_dir, shard, name, inl refl, e)))
            (λ s2 live d2 returned family path f (wet, (shard, name, e, orphan)).
              (wet, (cu, c, family, shard, name, inr f, e))))
        _ s _ (discovered-IsComputer b completed s root 8 true computer_uuid) (Deletes-refl b s)
