-- ===== src/Gc/Spare.antt =====
-- Files that may go while a computer's records are kept, and that the loops of `gc_orphan_blobs` delete
-- only such files if the collections have found what is named.
use arq_backup_tui.Common.{
  ◌≡◌, refl, sym, subst, Bool, true, false, List, ◌++◌, ◌⊎◌, inl, inr, Has, mem_text,
}
use arq_backup_tui.Common.Int.{ℤ}
use arq_backup_tui.Wire.Types.{Text}
use arq_backup_tui.Crypto.Primitives.{Primitives}
use arq_backup_tui.Crypto.Keyset.{Keyset}
use arq_backup_tui.Backend.{Backend, UnlinkLaws}
use arq_backup_tui.Record.Values.{Python}
use arq_backup_tui.Layout.Paths.{
  standardobjects_dir, keyset_path, join, computer_root, object_path, IsComputer,
}
use arq_backup_tui.Gc.Walk.{raw_at}
use arq_backup_tui.Gc.Deletes.{Deletes, Deletes-keeps}
use arq_backup_tui.Gc.SweepDeletes.{InFamily, OrphanName, OrphanPack}
use arq_backup_tui.Gc.Computer.{IsPackFamily}
use arq_backup_tui.Gc.Live.{Place, Gathered, HasPlaces, IsContentAddressed}
use arq_backup_tui.Gc.Same.{InFolders}
use arq_backup_tui.Gc.Transfer.{FoldersAgree, Agree, Live-Gathered}

abbrev pub IsFamily : Text → Type 0
IsFamily family = (family ≡ standardobjects_dir) ⊎ IsPackFamily family

module _ (Apart Outside : Text → Text → Type 0) (lower : Text → Text) (root : Text) where
  -- A blob's file against the files of objects, of this computer and of others: an unpacked blob is the
  -- object with its name, a packed blob lies in the pack at its path, and all others are other files.
  pub record IsPlaced (cu : Text) (place : Place) : Type 0 where
    pub objects :
        (other shard name : Text)
        → IsComputer other
        → ((other ≡ cu) × (lower (shard ++ name) ≡ place.id))
          ⊎ Apart (object_path root other standardobjects_dir shard name) place.path
    pub packs :
        (other family shard name : Text)
        → IsComputer other
        → IsPackFamily family
        → ((other ≡ cu)
            × (place.is_packed ≡ true)
            × (object_path root other family shard name ≡ place.path))
          ⊎ Apart (object_path root other family shard name) place.path

  -- The files of objects against the folders of records and the keyset.
  pub record IsSeparate (cu : Text) : Type 0 where
    pub folders :
        (other family shard name q : Text)
        → IsComputer other
        → IsFamily family
        → InFolders root cu q
        → Apart (object_path root other family shard name) q
          × Outside (object_path root other family shard name) q
    pub keyset :
        (other family shard name : Text)
        → IsComputer other
        → IsFamily family
        → Apart (object_path root other family shard name) (keyset_path root cu)

-- The destination at the start: its trees are addressed by their content, each record's tree has a place,
-- and its files stand where the layout puts them.
pub record IsSound {State : Type 0} (b : Backend State) (p : Primitives) (py : Python)
    (Apart Outside : Text → Text → Type 0) (root cu : Text) (keyset : Keyset) (s0 : State)
    : Type 0 where
  pub is_computer : IsComputer cu
  pub separate : IsSeparate Apart Outside py.lower root cu
  pub places : HasPlaces b p py keyset root cu s0
  pub addressed : IsContentAddressed b p py keyset root cu s0
  pub placed :
      (place : Place)
      → Gathered b p py keyset root cu s0 place
      → IsPlaced Apart Outside py.lower root cu place

-- The computer `cu`, whose keyset is `keyset`, as it was at the start, in the state `s0`.
module _ {State : Type 0} (b : Backend State) (p : Primitives) (py : Python)
    {Apart Outside : Text → Text → Type 0} (laws : UnlinkLaws b Apart Outside) (root cu : Text)
    (keyset : Keyset) (s0 : State) (sound : IsSound b p py Apart Outside root cu keyset s0) where
  -- A file that may go.
  pub record IsSpare (path : Text) : Type 0 where
    pub named : (place : Place) → Gathered b p py keyset root cu s0 place → Apart path place.path
    pub folders : (q : Text) → InFolders root cu q → Apart path q × Outside path q
    pub keyset_file : Apart path (keyset_path root cu)

  pub reads-kept :
      (s s' : State) (q : Text)
      → ((path : Text) → IsSpare path → Apart path q)
      → Deletes b IsSpare s s'
      → b.read_all s' q ≡ b.read_all s q
  reads-kept s s' q apart d =
      Deletes-keeps b (λ t. b.read_all t q)
        (λ t t' path spare u. laws.read_all-unlink t t' path q u (apart path spare)) d

  pub ranges-kept :
      (s s' : State) (q : Text) (offset size : ℤ)
      → ((path : Text) → IsSpare path → Apart path q)
      → Deletes b IsSpare s s'
      → b.read_range s' q offset size ≡ b.read_range s q offset size
  ranges-kept s s' q offset size apart d =
      Deletes-keeps b (λ t. b.read_range t q offset size)
        (λ t t' path spare u. laws.read_range-unlink t t' path q offset size u (apart path spare)) d

  spared-FoldersAgree : (s s' : State) → Deletes b IsSpare s s' → FoldersAgree b py root cu s s'
  spared-FoldersAgree s s' d = record {
    dirs = λ q h.
        Deletes-keeps b (λ t. b.is_dir t q) (λ t t' path spare u. laws.is_dir-unlink t t' path q u)
          d;
    lists = λ q h.
        Deletes-keeps b (λ t. b.list_dir t q)
          (λ t t' path spare u. laws.list_dir-unlink t t' path q u (spare.folders q h).1) d;
    reads = λ q h. reads-kept s s' q (λ path spare. (spare.folders q h).0) d;
  }

  pub spared-Agree : (s : State) → Deletes b IsSpare s0 s → Agree b py root cu p keyset s0 s
  unfolding raw_at
  spared-Agree s d = record {
    folders = spared-FoldersAgree s0 s d;
    trees = λ loc live.
        let (place, named, same) = Live-Gathered b py root cu p keyset s0 loc sound.places live in
        let apart = λ (path : Text) (spare : IsSpare path).
          subst (Apart path) same (spare.named place named) in
        let all = reads-kept s0 s loc.rel apart d in
        let range = ranges-kept s0 s loc.rel loc.offset loc.size apart d in cc;
  }

  -- What is spare of an object's file, if it is apart from the named blobs.
  object_path-IsSpare :
      (other family shard name path : Text)
      → IsComputer other
      → IsFamily family
      → path ≡ object_path root other family shard name
      → ((place : Place)
          → Gathered b p py keyset root cu s0 place
          → Apart (object_path root other family shard name) place.path)
      → IsSpare path
  object_path-IsSpare other family shard name path c f e apart = subst IsSpare (sym e) (record {
    named = apart;
    folders = λ q h. sound.separate.folders other family shard name q c f h;
    keyset_file = sound.separate.keyset other family shard name c f;
  })

  not_Has : (t : Text) (ts : List Text) → mem_text t ts ≡ false → Has ts t → ⊥
  not_Has t ts f h = cc

  -- An orphaned object of the computer, by the identifiers that the collection has returned.
  pub object-IsSpare :
      (dry_run : Bool) (referenced : List Text) (path : Text)
      → ((place : Place) → Gathered b p py keyset root cu s0 place → Has referenced place.id)
      → InFamily dry_run
          (join (computer_root root cu) standardobjects_dir)
          (OrphanName py.lower referenced)
          path
      → IsSpare path
  unfolding object_path
  object-IsSpare dry_run referenced path found (wet, (shard, name, e, (len, orphan))) =
      object_path-IsSpare cu standardobjects_dir shard name path sound.is_computer (inl refl) e
        (λ place named. elim ((sound.placed place named).objects cu shard name sound.is_computer) [
          | inr apart ↦ apart
          | inl (same, its_name) ↦ absurd (
              not_Has (py.lower (shard ++ name)) referenced orphan
                (subst (Has referenced) (sym its_name) (found place named)))
        ])

  pub pack-IsSpare :
      (dry_run : Bool) (live : List Text) (family path : Text)
      → IsPackFamily family
      → ((place : Place)
          → Gathered b p py keyset root cu s0 place
          → place.is_packed ≡ true
          → Has live place.path)
      → InFamily dry_run
          (join (computer_root root cu) family)
          (OrphanPack (join (computer_root root cu) family) live)
          path
      → IsSpare path
  unfolding object_path
  pack-IsSpare dry_run live family path f found (wet, (shard, name, e, orphan)) =
      object_path-IsSpare cu family shard name path sound.is_computer (inr f) e (λ place named.
        elim ((sound.placed place named).packs cu family shard name sound.is_computer f) [
          | inr apart ↦ apart
          | inl (same, packed, its_path) ↦ absurd (
              not_Has (object_path root cu family shard name) live orphan
                (subst (Has live) (sym its_path) (found place named packed)))
        ])

  -- Any object of another computer.
  pub foreign-IsSpare :
      (other family shard name path : Text)
      → IsComputer other
      → (other ≡ cu → ⊥)
      → IsFamily family
      → path ≡ object_path root other family shard name
      → IsSpare path
  foreign-IsSpare other family shard name path c foreign f e =
      object_path-IsSpare other family shard name path c f e (λ place named. apart place named f)
    where
      apart :
          (place : Place)
          → Gathered b p py keyset root cu s0 place
          → IsFamily family
          → Apart (object_path root other family shard name) place.path
      apart place named (inl so) = elim ((sound.placed place named).objects other shard name c) [
        | inl (same, its_name) ↦ absurd (foreign same)
        | inr a ↦ subst (λ g. Apart (object_path root other g shard name) place.path) (sym so) a
      ]
      apart place named (inr pf) =
          elim ((sound.placed place named).packs other family shard name c pf) [
            | inl (same, packed, its_path) ↦ absurd (foreign same)
            | inr a ↦ a
          ]
