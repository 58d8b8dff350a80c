-- ===== src/Gc/Sweep.antt =====
-- `gc_orphan_blobs`: the loops that delete.
use arq_backup_tui.Common.{
  ℕ, ◌+◌, Bool, true, Option, none, some, List, [], ◌∷◌, ◌++◌, length, list_eq, ◌==◌, if◌then◌else◌,
  mem_text,
}
use arq_backup_tui.Common.Result.{Result, ok, err}
use arq_backup_tui.Wire.Types.{Text}
use arq_backup_tui.Crypto.Primitives.{Primitives}
use arq_backup_tui.Crypto.Keyset.{Keyset, decrypt_keyset}
use arq_backup_tui.Pack.Builder.{codes}
use arq_backup_tui.Backend.{Backend}
use arq_backup_tui.Record.Values.{Python}
use arq_backup_tui.Layout.Paths.{
  blobpacks_dir, treepacks_dir, largeblobpacks_dir, standardobjects_dir, keyset_path, join,
  computer_root,
}
use arq_backup_tui.Layout.Discover.{Arq7ComputerLayout, discover_layout, or_empty_list}
use arq_backup_tui.Layout.Records.{ends_with}
use arq_backup_tui.Gc.Walk.{Failure, caught}
use arq_backup_tui.Gc.Collect.{collect_referenced_blobs, collect_live_pack_paths}

-- A failure is noted by its path or its computer; the text of the exception is left out.
pub record GcResult : Type 0 where
  pub standalone_blobs_deleted : ℕ
  pub standalone_bytes_freed : ℕ
  pub packs_deleted : ℕ
  pub pack_bytes_freed : ℕ
  pub packs_partially_orphan_kept : ℕ
  pub failures : List Text
  pub dry_run : Bool

unfoldable pub gc_failed : Text → GcResult → GcResult
gc_failed path r = record r { failures = r.failures ++ path ∷ [] }

unfoldable pub blob_deleted : ℕ → GcResult → GcResult
blob_deleted size r = record r {
  standalone_blobs_deleted = r.standalone_blobs_deleted + 1;
  standalone_bytes_freed = r.standalone_bytes_freed + size;
}

unfoldable pub pack_deleted : ℕ → GcResult → GcResult
pack_deleted size r = record r {
  packs_deleted = r.packs_deleted + 1;
  pack_bytes_freed = r.pack_bytes_freed + size;
}

unfoldable pub pack_kept : GcResult → GcResult
pack_kept r = record r { packs_partially_orphan_kept = r.packs_partially_orphan_kept + 1 }

-- `if computer_uuid is not None`
unfoldable pub chosen : Option Text → List Arq7ComputerLayout → List Arq7ComputerLayout
chosen none layouts = layouts
chosen (some cu) [] = []
chosen (some cu) (layout ∷ layouts) =
    let rest = chosen (some cu) layouts in
    if list_eq layout.computer_uuid cu then layout ∷ rest else rest

abbrev pub size_or_zero : Option ℕ → ℕ
size_or_zero none = 0
size_or_zero (some size) = size

module _ {State : Type 0} (b : Backend State) where
  -- `if not dry_run: _unlink(...)`
  unfoldable pub remove : Bool → State → Text → Option State
  remove dry_run s path = if dry_run then some s else b.unlink s path

  -- From the call of `stat_size` on: `count` is what a deletion adds to the result.
  unfoldable pub delete_file :
      Bool → (ℕ → GcResult → GcResult) → Text → State × GcResult → State × GcResult
  delete_file dry_run count path (s, r) = elim (remove dry_run s path) [
    | none ↦ (s, gc_failed path r)
    | some s' ↦ (s', count (size_or_zero (b.stat_size s path)) r)
  ]

  unfoldable pub sweep_object :
      Bool → (Text → Text) → List Text → Text → Text → Text → State × GcResult → State × GcResult
  sweep_object dry_run lower referenced shard_path shard name a =
      if length name == 62
      then (if mem_text (lower (shard ++ name)) referenced
          then a
          else delete_file dry_run blob_deleted (join shard_path name) a)
      else a

  unfoldable pub sweep_pack :
      Bool → List Text → Text → Text → Text → State × GcResult → State × GcResult
  sweep_pack dry_run live_pack_paths shard_path shard name (s, r) =
      if ends_with name (codes ".pack")
      then (if mem_text (join shard_path name) live_pack_paths
          then (s, pack_kept r)
          else delete_file dry_run pack_deleted (join shard_path name) (s, r))
      else (s, r)

  -- The two loops over a sharded directory; `sweep` is the body.
  module _ (sweep : Text → Text → Text → State × GcResult → State × GcResult) where
    unfoldable pub sweep_files : Text → Text → List Text → State × GcResult → State × GcResult
    sweep_files shard_path shard [] a = a
    sweep_files shard_path shard (name ∷ names) a =
        sweep_files shard_path shard names (sweep shard_path shard name a)

    unfoldable pub sweep_shard : Text → Text → State × GcResult → State × GcResult
    sweep_shard family_root shard (s, r) =
        let shard_path = join family_root shard in
        if b.is_dir s shard_path
        then sweep_files shard_path shard (or_empty_list (b.list_dir s shard_path)) (s, r)
        else (s, r)

    unfoldable pub sweep_shards : Text → List Text → State × GcResult → State × GcResult
    sweep_shards family_root [] a = a
    sweep_shards family_root (shard ∷ shards) a =
        sweep_shards family_root shards (sweep_shard family_root shard a)

    unfoldable pub sweep_family : Text → State × GcResult → State × GcResult
    sweep_family family_root (s, r) =
        if b.is_dir s family_root
        then sweep_shards family_root (or_empty_list (b.list_dir s family_root)) (s, r)
        else (s, r)

  -- The keyset of a computer; `none` where it cannot be read or opened.
  unfoldable pub open_keyset : Primitives → Text → Text → State → Text → Option Keyset
  open_keyset p root password s cu = elim (b.read_all s (keyset_path root cu)) [
    | none ↦ none
    | some file ↦ caught (decrypt_keyset p file password)
  ]

  module _ (p : Primitives) (py : Python) (fuel : ℕ) (dry_run : Bool) (root : Text) where
    unfoldable pub sweep_standardobjects : Text → List Text → State × GcResult → State × GcResult
    sweep_standardobjects cu referenced =
        sweep_family (sweep_object dry_run py.lower referenced)
          (join (computer_root root cu) standardobjects_dir)

    unfoldable pub sweep_packs : Text → List Text → State × GcResult → State × GcResult
    sweep_packs cu live_pack_paths a =
        let sweep = sweep_family (sweep_pack dry_run live_pack_paths) in
        sweep (join (computer_root root cu) largeblobpacks_dir) (
          sweep (join (computer_root root cu) blobpacks_dir)
            (sweep (join (computer_root root cu) treepacks_dir) a))

    -- What an exception leaves behind is the state; the result is lost.
    abbrev pub Outcome : Type 0
    Outcome = State × Result Failure GcResult

    unfoldable pub gc_packs : Keyset → Text → State × GcResult → Outcome
    gc_packs keyset cu (s, r) = elim (collect_live_pack_paths b p py keyset s fuel root cu) [
      | err failure ↦ (s, err failure)
      | ok paths ↦ let a = sweep_packs cu paths (s, r) in (a.0, ok a.1)
    ]

    unfoldable pub gc_computer : Keyset → Text → State → GcResult → Outcome
    gc_computer keyset cu s r = elim (collect_referenced_blobs b p py keyset s fuel root cu) [
      | err failure ↦ (s, err failure)
      | ok referenced ↦ gc_packs keyset cu (sweep_standardobjects cu referenced (s, r))
    ]

    unfoldable pub gc_layouts : Text → List Arq7ComputerLayout → State → GcResult → Outcome
    gc_layouts password [] s r = (s, ok r)
    gc_layouts password (layout ∷ layouts) s r =
        elim (open_keyset p root password s layout.computer_uuid) [
          | none ↦ gc_layouts password layouts s (gc_failed layout.computer_uuid r)
          | some keyset ↦
              let (s', outcome) = gc_computer keyset layout.computer_uuid s r in
              elim outcome [
                | err failure ↦ (s', err failure)
                | ok r' ↦ gc_layouts password layouts s' r'
              ]
        ]

    unfoldable pub gc_orphan_blobs : (List Text → List Text) → Text → Option Text → State → Outcome
    gc_orphan_blobs completed password computer_uuid s =
        gc_layouts password (chosen computer_uuid (discover_layout b completed s root 8 true)) s
          (record {
            standalone_blobs_deleted = 0;
            standalone_bytes_freed = 0;
            packs_deleted = 0;
            pack_bytes_freed = 0;
            packs_partially_orphan_kept = 0;
            failures = [];
            dry_run = dry_run;
          })
