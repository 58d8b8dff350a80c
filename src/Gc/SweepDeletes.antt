-- ===== src/Gc/SweepDeletes.antt =====
-- `gc_orphan_blobs` deletes orphans only: every deletion is of a file with the name of a blob that the
-- walk has not found, or of a pack that it has not found.
use arq_backup_tui.Common.{
  ℕ, Bool, true, false, ◌≡◌, refl, Option-cases, List, [], ◌∷◌, ◌++◌, length, ◌==◌, inl, inr,
  Bool-cases, mem_text, ==_iff,
}
use arq_backup_tui.Wire.Types.{Text}
use arq_backup_tui.Pack.Builder.{codes}
use arq_backup_tui.Backend.{Backend}
use arq_backup_tui.Layout.Paths.{join}
use arq_backup_tui.Layout.Records.{ends_with}
use arq_backup_tui.Gc.Sweep.{
  GcResult, blob_deleted, pack_deleted, remove, delete_file, sweep_object, sweep_pack, sweep_files,
  sweep_shard, sweep_shards, sweep_family,
}
use arq_backup_tui.Gc.Deletes.{Deletes, step, Deletes-refl, Deletes-trans}

-- A file of the sharded directory `family_root`, in a run that deletes.
abbrev pub InFamily : Bool → Text → (Text → Text → Type 0) → Text → Type 0
InFamily dry_run family_root P path =
    (dry_run ≡ false)
    × ((shard : Text) × (name : Text) × (path ≡ join (join family_root shard) name) × P shard name)

-- The name of an object whose identifier is not among the referenced ones.
abbrev pub OrphanName : (Text → Text) → List Text → Text → Text → Type 0
OrphanName lower referenced shard name =
    (length name ≡ 62) × (mem_text (lower (shard ++ name)) referenced ≡ false)

-- A pack whose path is not among the live ones.
abbrev pub OrphanPack : Text → List Text → Text → Text → Type 0
OrphanPack family_root live shard name = mem_text (join (join family_root shard) name) live ≡ false

module _ {State : Type 0} (b : Backend State) where
  delete_file-Deletes :
      {D : Text → Type 0} (dry_run : Bool) (count : ℕ → GcResult → GcResult) (path : Text)
      (a : State × GcResult)
      → (dry_run ≡ false → D path)
      → Deletes b D a.0 (delete_file b dry_run count path a).0
  unfolding delete_file remove
  delete_file-Deletes true count path (s, r) d = Deletes-refl b s
  delete_file-Deletes false count path (s, r) d = elim (Option-cases (b.unlink s path)) [
    | inl e ↦ rw (e, delete_file, remove) (Deletes-refl b s)
    | inr (s', e) ↦ rw (e, delete_file, remove) (step path (d refl) e (Deletes-refl b s'))
  ]

  -- A body of the loops that deletes only files that satisfy `D`.
  module _ (D : Text → Type 0) (sweep : Text → Text → Text → State × GcResult → State × GcResult)
      (family_root : Text)
      (body : (shard name : Text) (a : State × GcResult)
        → Deletes b D a.0 (sweep (join family_root shard) shard name a).0) where
    sweep_files-Deletes :
        (shard : Text) (names : List Text) (a : State × GcResult)
        → Deletes b D a.0 (sweep_files b sweep (join family_root shard) shard names a).0
    unfolding sweep_files
    sweep_files-Deletes shard [] a = Deletes-refl b a.0
    sweep_files-Deletes shard (name ∷ names) a =
        Deletes-trans b (body shard name a) (sweep_files-Deletes shard names _)

    sweep_shard-Deletes :
        (shard : Text) (a : State × GcResult)
        → Deletes b D a.0 (sweep_shard b sweep family_root shard a).0
    unfolding sweep_shard
    sweep_shard-Deletes shard (s, r) = elim (Bool-cases (b.is_dir s (join family_root shard))) [
      | inl e ↦ rw e (sweep_files-Deletes shard _ (s, r))
      | inr e ↦ rw e (Deletes-refl b s)
    ]

    sweep_shards-Deletes :
        (shards : List Text) (a : State × GcResult)
        → Deletes b D a.0 (sweep_shards b sweep family_root shards a).0
    unfolding sweep_shards
    sweep_shards-Deletes [] a = Deletes-refl b a.0
    sweep_shards-Deletes (shard ∷ shards) a =
        Deletes-trans b (sweep_shard-Deletes shard a) (sweep_shards-Deletes shards _)

    sweep_family-Deletes :
        (a : State × GcResult) → Deletes b D a.0 (sweep_family b sweep family_root a).0
    unfolding sweep_family
    sweep_family-Deletes (s, r) = elim (Bool-cases (b.is_dir s family_root)) [
      | inl e ↦ rw e (sweep_shards-Deletes _ (s, r))
      | inr e ↦ rw e (Deletes-refl b s)
    ]

  module _ (dry_run : Bool) (family_root : Text) where
    sweep_object-Deletes :
        (lower : Text → Text) (referenced : List Text) (shard name : Text) (a : State × GcResult)
        → Deletes b
            (InFamily dry_run family_root (OrphanName lower referenced))
            a.0
            (sweep_object b dry_run lower referenced (join family_root shard) shard name a).0
    unfolding sweep_object
    sweep_object-Deletes lower referenced shard name a = elim (Bool-cases (length name == 62)) [
      | inr e ↦ rw e (Deletes-refl b a.0)
      | inl e ↦ rw e (elim (Bool-cases (mem_text (lower (shard ++ name)) referenced)) [
        | inl f ↦ rw f (Deletes-refl b a.0)
        | inr f ↦ rw f (
            delete_file-Deletes dry_run blob_deleted (join (join family_root shard) name) a
              (λ wet. (wet, (shard, name, refl, ((==_iff (length name) 62).0 e, f)))))
      ])
    ]

    pub objects-Deletes :
        (lower : Text → Text) (referenced : List Text) (a : State × GcResult)
        → Deletes b
            (InFamily dry_run family_root (OrphanName lower referenced))
            a.0
            (sweep_family b (sweep_object b dry_run lower referenced) family_root a).0
    objects-Deletes lower referenced a =
        sweep_family-Deletes (InFamily dry_run family_root (OrphanName lower referenced))
          (sweep_object b dry_run lower referenced) family_root
          (sweep_object-Deletes lower referenced) a

    sweep_pack-Deletes :
        (live : List Text) (shard name : Text) (a : State × GcResult)
        → Deletes b
            (InFamily dry_run family_root (OrphanPack family_root live))
            a.0
            (sweep_pack b dry_run live (join family_root shard) shard name a).0
    unfolding sweep_pack
    sweep_pack-Deletes live shard name (s, r) = elim (Bool-cases (ends_with name (codes ".pack"))) [
      | inr e ↦ rw e (Deletes-refl b s)
      | inl e ↦ rw e (elim (Bool-cases (mem_text (join (join family_root shard) name) live)) [
        | inl f ↦ rw f (Deletes-refl b s)
        | inr f ↦ rw f (
            delete_file-Deletes dry_run pack_deleted (join (join family_root shard) name) (s, r)
              (λ wet. (wet, (shard, name, refl, f))))
      ])
    ]

    pub packs-Deletes :
        (live : List Text) (a : State × GcResult)
        → Deletes b
            (InFamily dry_run family_root (OrphanPack family_root live))
            a.0
            (sweep_family b (sweep_pack b dry_run live) family_root a).0
    packs-Deletes live a =
        sweep_family-Deletes (InFamily dry_run family_root (OrphanPack family_root live))
          (sweep_pack b dry_run live) family_root (sweep_pack-Deletes live) a
