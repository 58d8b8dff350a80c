-- ===== src/Gc/Keeps.antt =====
-- `gc_orphan_blobs` deletes no file that a computer's records need.
use arq_backup_tui.Common.{
  ℕ, ◌≡◌, refl, sym, ◌∙◌, subst, Bool, true, false, Option, some, List, inl, inr, Bool-cases,
  list_eq, list_eq_iff,
}
use arq_backup_tui.Common.Int.{ℤ}
use arq_backup_tui.Common.Result.{ok}
use arq_backup_tui.Wire.Types.{Text}
use arq_backup_tui.Crypto.Primitives.{Primitives}
use arq_backup_tui.Crypto.Keyset.{Keyset}
use arq_backup_tui.Backend.{Backend, UnlinkLaws}
use arq_backup_tui.Record.Values.{Python}
use arq_backup_tui.Layout.Paths.{standardobjects_dir, keyset_path, object_path, IsComputer}
use arq_backup_tui.Gc.Collect.{collect_referenced_blobs, collect_live_pack_paths}
use arq_backup_tui.Gc.Sweep.{GcResult, gc_computer, open_keyset, gc_orphan_blobs}
use arq_backup_tui.Gc.Computer.{
  OrphansIn, OrphanPacksIn, gc_computer-Deletes, gc_layouts-Deletes, discovered-IsComputer,
}
use arq_backup_tui.Gc.Deletes.{Deletes, Deletes-refl, Deletes-trans}
use arq_backup_tui.Gc.Live.{Place, Gathered-Named, Named, RootAcl}
use arq_backup_tui.Gc.Finds.{collect_referenced_blobs-Gathered, collect_live_pack_paths-Gathered}
use arq_backup_tui.Gc.Same.{InFolders}
use arq_backup_tui.Gc.Transfer.{Gathered-same, HasPlaces-same, IsContentAddressed-same}
use arq_backup_tui.Gc.Spare.{
  IsSound, IsSpare, reads-kept, ranges-kept, spared-Agree, object-IsSpare, pack-IsSpare,
  foreign-IsSpare,
}

some_eq : (k l : Keyset) → some k ≡ some l → k ≡ l
some_eq k l e = cc

true_ne_false : (t : Bool) → t ≡ true → t ≡ false → ⊥
true_ne_false t e f = cc

module _ {State : Type 0} (b : Backend State) (p : Primitives) (py : Python)
    {Apart Outside : Text → Text → Type 0} (laws : UnlinkLaws b Apart Outside) (root cu : Text)
    (keyset : Keyset) (s0 : State) (sound : IsSound b p py Apart Outside root cu keyset s0) where
  abbrev pub Spare : Text → Type 0
  Spare = IsSpare b p py laws root cu keyset s0 sound

  module _ (fuel : ℕ) (dry_run : Bool) where
    -- What the walks find in a state that differs from the first by files that may go.
    pub own_orphans :
        (s : State) (referenced : List Text)
        → Deletes b Spare s0 s
        → collect_referenced_blobs b p py keyset s fuel root cu ≡ ok referenced
        → OrphansIn b p py fuel dry_run root Spare cu referenced
    own_orphans s referenced d returned path h =
        let agree = spared-Agree b p py laws root cu keyset s0 sound s d in
        object-IsSpare b p py laws root cu keyset s0 sound dry_run referenced path
          (λ place named.
            collect_referenced_blobs-Gathered b p py keyset root cu s
              (IsContentAddressed-same b py root cu p keyset s0 s agree sound.addressed)
              (HasPlaces-same b py root cu p keyset s0 s agree sound.places) fuel referenced
              returned place (Gathered-same b py root cu p keyset s0 s place agree named))
          h

    own_orphan_packs :
        (s : State) (live : List Text)
        → Deletes b Spare s0 s
        → collect_live_pack_paths b p py keyset s fuel root cu ≡ ok live
        → OrphanPacksIn b p py fuel dry_run root Spare cu live
    own_orphan_packs s live d returned family path f h =
        let agree = spared-Agree b p py laws root cu keyset s0 sound s d in
        pack-IsSpare b p py laws root cu keyset s0 sound dry_run live family path f
          (λ place named.
            collect_live_pack_paths-Gathered b p py keyset root cu s
              (IsContentAddressed-same b py root cu p keyset s0 s agree sound.addressed)
              (HasPlaces-same b py root cu p keyset s0 s agree sound.places) fuel live returned
              place (Gathered-same b py root cu p keyset s0 s place agree named))
          h

    own_computer :
        (s : State) (r : GcResult)
        → Deletes b Spare s0 s
        → Deletes b Spare s (gc_computer b p py fuel dry_run root keyset cu s r).0
    own_computer s r d =
        gc_computer-Deletes b p py fuel dry_run root Spare keyset cu s r
          (λ referenced. own_orphans s referenced d)
          (λ s1 live d1. own_orphan_packs s1 live (Deletes-trans b d d1))

    -- The collection of another computer, whatever its keyset is.
    foreign_computer :
        (other : Text) (its_keyset : Keyset) (s : State) (r : GcResult)
        → IsComputer other
        → (other ≡ cu → ⊥)
        → Deletes b Spare s (gc_computer b p py fuel dry_run root its_keyset other s r).0
    unfolding object_path
    foreign_computer other its_keyset s r c foreign =
        gc_computer-Deletes b p py fuel dry_run root Spare its_keyset other s r
          (λ referenced returned path (wet, (shard, name, e, orphan)).
            foreign-IsSpare b p py laws root cu keyset s0 sound other standardobjects_dir shard name
              path c foreign (inl refl) e)
          (λ s1 live d1 returned family path f (wet, (shard, name, e, orphan)).
            foreign-IsSpare b p py laws root cu keyset s0 sound other family shard name path c
              foreign (inr f) e)

    module _ (password : Text) (opened : open_keyset b p root password s0 cu ≡ some keyset) where
      pub opened-same :
          (s : State) (its_keyset : Keyset)
          → Deletes b Spare s0 s
          → open_keyset b p root password s cu ≡ some its_keyset
          → its_keyset ≡ keyset
      unfolding open_keyset
      opened-same s its_keyset d e =
          let same =
            reads-kept b p py laws root cu keyset s0 sound s0 s (keyset_path root cu)
              (λ path spare. spare.keyset_file) d in
          let again : open_keyset b p root password s cu ≡ open_keyset b p root password s0 cu =
            rw (same, open_keyset) refl in
          some_eq its_keyset keyset (sym e ∙ (again ∙ opened))

      -- One computer of the list.
      pub computer-Spare :
          (other : Text) (its_keyset : Keyset) (s : State) (r : GcResult)
          → IsComputer other
          → Deletes b Spare s0 s
          → open_keyset b p root password s other ≡ some its_keyset
          → Deletes b Spare s (gc_computer b p py fuel dry_run root its_keyset other s r).0
      computer-Spare other its_keyset s r c d e = elim (Bool-cases (list_eq other cu)) [
        | inr differs ↦
            foreign_computer other its_keyset s r c
              (λ same. true_ne_false (list_eq other cu) ((list_eq_iff other cu).1 same) differs)
        | inl equal ↦
            let same : other ≡ cu = (list_eq_iff other cu).0 equal in
            let opened_cu : open_keyset b p root password s cu ≡ some its_keyset =
              subst (λ c. open_keyset b p root password s c ≡ some its_keyset) same e in
            subst (λ c. Deletes b Spare s (gc_computer b p py fuel dry_run root its_keyset c s r).0)
              (sym same)
              (subst (λ k. Deletes b Spare s (gc_computer b p py fuel dry_run root k cu s r).0)
                (sym (opened-same s its_keyset d opened_cu)) (own_computer s r d))
      ]

      -- What a run of the collection over the whole destination does: it deletes files that may go.
      pub gc_orphan_blobs-Deletes :
          (completed : List Text → List Text) (computer_uuid : Option Text)
          → Deletes b Spare s0
              (gc_orphan_blobs b p py fuel dry_run root completed password computer_uuid s0).0
      unfolding gc_orphan_blobs
      gc_orphan_blobs-Deletes completed computer_uuid =
          gc_layouts-Deletes b p py fuel dry_run root Spare s0 password computer-Spare _ s0 _
            (discovered-IsComputer b completed s0 root 8 true computer_uuid) (Deletes-refl b s0)

      -- However gc_orphan_blobs ends, and whatever computers it goes over, every blob that a record of the
      -- computer or a tree below one names, save the ACL of a record's own node, reads as before, whole and
      -- in part, and so does every file in the folders of its records, where the backend's deletions leave
      -- other files alone, the password opens the computer's keyset, and the destination is sound: trees
      -- with one identifier are one tree, each record's tree has an identifier of 64 characters, a path and
      -- a compression type other than 0, and blobs, records and the keyset file stand where the layout puts
      -- them. Records and trees that cannot be read name nothing.
      pub gc_orphan_blobs-keeps :
          (completed : List Text → List Text) (computer_uuid : Option Text)
          → let s' =
              (gc_orphan_blobs b p py fuel dry_run root completed password computer_uuid s0).0 in
            ((place : Place)
              → Named b p py keyset root cu s0 place
              → (RootAcl b p py keyset root cu s0 place → ⊥)
              → (b.read_all s' place.path ≡ b.read_all s0 place.path)
                × ((offset size : ℤ)
                    → b.read_range s' place.path offset size
                      ≡ b.read_range s0 place.path offset size))
            × ((q : Text) → InFolders root cu q → b.read_all s' q ≡ b.read_all s0 q)
      gc_orphan_blobs-keeps completed computer_uuid =
          let d = gc_orphan_blobs-Deletes completed computer_uuid in
          let s' =
            (gc_orphan_blobs b p py fuel dry_run root completed password computer_uuid s0).0 in
          (
            λ place named no_acl. (
              reads-kept b p py laws root cu keyset s0 sound s0 s' place.path
                  (λ path spare.
                    spare.named place (Gathered-Named b p py keyset root cu s0 place named no_acl))
                  d,
              λ offset size.
                  ranges-kept b p py laws root cu keyset s0 sound s0 s' place.path offset size
                    (λ path spare.
                      spare.named place
                        (Gathered-Named b p py keyset root cu s0 place named no_acl))
                    d,
            ),
            λ q h.
                reads-kept b p py laws root cu keyset s0 sound s0 s' q
                  (λ path spare. (spare.folders q h).0) d,
          )
