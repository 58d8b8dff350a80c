-- ===== src/Gc/Terminates.antt =====
-- `gc_orphan_blobs` of one computer is never out of fuel.
use arq_backup_tui.Common.{
  ℕ, ◌≡◌, sym, subst, ◌<◌, Bool, some, Option-cases, List, [], ◌∷◌, All, inl, inr, Bool-cases,
  length, list_eq, list_eq_iff, Has, true,
}
use arq_backup_tui.Common.Result.{Result, err}
use arq_backup_tui.Wire.Types.{Text}
use arq_backup_tui.Crypto.Primitives.{Primitives}
use arq_backup_tui.Crypto.Keyset.{Keyset}
use arq_backup_tui.Backend.{Backend, UnlinkLaws}
use arq_backup_tui.Record.Values.{Python}
use arq_backup_tui.Layout.Paths.{IsComputer}
use arq_backup_tui.Layout.Discover.{Arq7ComputerLayout, discover_layout}
use arq_backup_tui.Gc.Walk.{Failure, stuck, TreeLoc}
use arq_backup_tui.Gc.Collect.{collect_referenced_blobs, collect_live_pack_paths}
use arq_backup_tui.Gc.Sweep.{
  GcResult, sweep_standardobjects, gc_packs, gc_computer, open_keyset, gc_failed, gc_layouts,
  chosen, gc_orphan_blobs,
}
use arq_backup_tui.Gc.Deletes.{Deletes, Deletes-refl, Deletes-trans}
use arq_backup_tui.Gc.Live.{Live}
use arq_backup_tui.Gc.Transfer.{Live-back, HasPlaces-same}
use arq_backup_tui.Gc.Spare.{IsSound, spared-Agree}
use arq_backup_tui.Gc.Computer.{Result-cases, sweep_standardobjects-Deletes}
use arq_backup_tui.Gc.Keeps.{Spare, own_orphans, opened-same, computer-Spare}
use arq_backup_tui.Gc.Ends.{NotStuck, collect_referenced_blobs-ends, collect_live_pack_paths-ends}

chosen-All :
    (cu : Text) (layouts : List Arq7ComputerLayout)
    → All (λ l. l.computer_uuid ≡ cu) (chosen (some cu) layouts)
unfolding chosen
chosen-All cu [] = tt
chosen-All cu (layout ∷ layouts) = elim (Bool-cases (list_eq layout.computer_uuid cu)) [
  | inl same ↦
      rw (same, chosen) ((list_eq_iff layout.computer_uuid cu).0 same, chosen-All cu layouts)
  | inr other ↦ rw (other, chosen) (chosen-All cu layouts)
]

err_NotStuck {ℓ} :
    {A : Type ℓ} (r : Result Failure A) (e : Failure) → r ≡ err e → NotStuck r → e ≡ stuck → ⊥
err_NotStuck r e f h g = h cc

module _ {State : Type 0} (b : Backend State) (p : Primitives) (py : Python)
    {Apart Outside : Text → Text → Type 0} (laws : UnlinkLaws b Apart Outside) (root cu : Text)
    (keyset : Keyset) (s0 : State) (sound : IsSound b p py Apart Outside root cu keyset s0)
    (us : List Text) (known : (loc : TreeLoc) → Live b p py keyset root cu s0 loc → Has us loc.bid)
    (fuel : ℕ) (enough : length us < fuel) (dry_run : Bool) where
  abbrev MaySpare : Text → Type 0
  MaySpare = Spare b p py laws root cu keyset s0 sound

  packs_end :
      (s : State) (r : GcResult)
      → Deletes b MaySpare s0 s
      → NotStuck (gc_packs b p py fuel dry_run root keyset cu (s, r)).1
  unfolding gc_packs
  packs_end s r d =
      let agree = spared-Agree b p py laws root cu keyset s0 sound s d in
      elim (Result-cases (collect_live_pack_paths b p py keyset s fuel root cu)) [
        | inr (live, returned) ↦ rw (returned, gc_packs) (λ e. cc)
        | inl (f, failed) ↦
            let ends =
              collect_live_pack_paths-ends b p py keyset root cu s us
                (λ loc live. known loc (Live-back b py root cu p keyset s0 s loc agree live))
                (HasPlaces-same b py root cu p keyset s0 s agree sound.places) fuel enough in
            rw (failed, gc_packs) (λ e. err_NotStuck _ f failed ends cc)
      ]

  computer_ends :
      (s : State) (r : GcResult)
      → Deletes b MaySpare s0 s
      → NotStuck (gc_computer b p py fuel dry_run root keyset cu s r).1
  unfolding gc_computer
  computer_ends s r d =
      let agree = spared-Agree b p py laws root cu keyset s0 sound s d in
      elim (Result-cases (collect_referenced_blobs b p py keyset s fuel root cu)) [
        | inl (f, failed) ↦
            let ends =
              collect_referenced_blobs-ends b p py keyset root cu s us
                (λ loc live. known loc (Live-back b py root cu p keyset s0 s loc agree live))
                (HasPlaces-same b py root cu p keyset s0 s agree sound.places) fuel enough in
            rw (failed, gc_computer) (λ e. err_NotStuck _ f failed ends cc)
        | inr (referenced, returned) ↦
            let swept =
              sweep_standardobjects-Deletes b p py fuel dry_run root MaySpare cu referenced (s, r)
                (own_orphans b p py laws root cu keyset s0 sound fuel dry_run s referenced d
                  returned) in
            let a = sweep_standardobjects b p py fuel dry_run root cu referenced (s, r) in
            rw (returned, gc_computer) (packs_end a.0 a.1 (Deletes-trans b d swept))
      ]

  module _ (password : Text) (opened : open_keyset b p root password s0 cu ≡ some keyset) where
    layouts_end :
        (layouts : List Arq7ComputerLayout) (s : State) (r : GcResult)
        → All (λ l. l.computer_uuid ≡ cu) layouts
        → Deletes b MaySpare s0 s
        → NotStuck (gc_layouts b p py fuel dry_run root password layouts s r).1
    unfolding gc_layouts
    layouts_end [] s r own d = λ e. cc
    layouts_end (layout ∷ layouts) s r (same, own) d =
        let other = layout.computer_uuid in
        elim (Option-cases (open_keyset b p root password s other)) [
          | inl none_e ↦ rw (none_e, gc_layouts) (layouts_end layouts s (gc_failed other r) own d)
          | inr (k, some_e) ↦
              let opened_cu : open_keyset b p root password s cu ≡ some k =
                subst (λ c. open_keyset b p root password s c ≡ some k) same some_e in
              let is_keyset : k ≡ keyset =
                opened-same b p py laws root cu keyset s0 sound fuel dry_run password opened s k d
                  opened_cu in
              let out = gc_computer b p py fuel dry_run root k other s r in
              let spared : Deletes b MaySpare s out.0 =
                computer-Spare b p py laws root cu keyset s0 sound fuel dry_run password opened
                  other k s r (subst IsComputer (sym same) sound.is_computer) d some_e in
              let ends : NotStuck out.1 =
                subst (λ c. NotStuck (gc_computer b p py fuel dry_run root k c s r).1) (sym same)
                  (subst (λ l. NotStuck (gc_computer b p py fuel dry_run root l cu s r).1)
                    (sym is_keyset) (computer_ends s r d)) in
              elim (Result-cases out.1) [
                | inl (f, failed) ↦
                    rw (some_e, failed, gc_layouts) (λ e. err_NotStuck out.1 f failed ends cc)
                | inr (r', returned) ↦
                    rw (some_e, returned, gc_layouts)
                      (layouts_end layouts out.0 r' own (Deletes-trans b d spared))
              ]
        ]

    -- On a sound destination, whose keyset the password opens, gc_orphan_blobs of one computer ends, by
    -- returning or by raising, where the fuel for the depth of its walks is more than the number of
    -- identifiers of trees.
    pub gc_orphan_blobs-ends :
        (completed : List Text → List Text)
        → NotStuck (gc_orphan_blobs b p py fuel dry_run root completed password (some cu) s0).1
    unfolding gc_orphan_blobs
    gc_orphan_blobs-ends completed =
        layouts_end (chosen (some cu) (discover_layout b completed s0 root 8 true)) s0 _
          (chosen-All cu (discover_layout b completed s0 root 8 true)) (Deletes-refl b s0)
