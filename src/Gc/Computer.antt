-- ===== src/Gc/Computer.antt =====
-- The deletions of `gc_orphan_blobs`, whatever predicate `D` its files are to satisfy.
use arq_backup_tui.Common.{
  ℕ, ◌≡◌, refl, Bool, Option, none, some, Option-cases, List, [], ◌∷◌, map, All, Bool-cases,
  list_eq, ◌⊎◌, inl, inr,
}
use arq_backup_tui.Common.Result.{Result, ok, err}
use arq_backup_tui.Wire.Types.{Text}
use arq_backup_tui.Crypto.Primitives.{Primitives}
use arq_backup_tui.Crypto.Keyset.{Keyset}
use arq_backup_tui.Backend.{Backend}
use arq_backup_tui.Record.Values.{Python}
use arq_backup_tui.Layout.Paths.{
  blobpacks_dir, treepacks_dir, largeblobpacks_dir, standardobjects_dir, join, computer_root,
  IsComputer, matches_all, computer_uuid_re,
}
use arq_backup_tui.Layout.Discover.{
  Arq7ComputerLayout, matching_names, computer_layout, discover_layout, or_empty_list,
}
use arq_backup_tui.Gc.Collect.{collect_referenced_blobs, collect_live_pack_paths}
use arq_backup_tui.Gc.Sweep.{
  GcResult, sweep_standardobjects, sweep_packs, gc_packs, gc_computer, open_keyset, gc_failed,
  gc_layouts, chosen,
}
use arq_backup_tui.Gc.Deletes.{Deletes, Deletes-refl, Deletes-trans, Deletes-mono}
use arq_backup_tui.Gc.SweepDeletes.{
  InFamily, OrphanName, OrphanPack, objects-Deletes, packs-Deletes,
}

abbrev pub IsPackFamily : Text → Type 0
IsPackFamily family =
    (family ≡ treepacks_dir) ⊎ ((family ≡ blobpacks_dir) ⊎ (family ≡ largeblobpacks_dir))

-- How a call ended.
pub Result-cases {ℓ κ} :
    {E : Type ℓ} {A : Type κ} (r : Result E A) → ((e : E) × (r ≡ err e)) ⊎ ((a : A) × (r ≡ ok a))
Result-cases (ok a) = inr (a, refl)
Result-cases (err e) = inl (e, refl)

matching_names-All : (names : List Text) → All IsComputer (matching_names computer_uuid_re names)
unfolding matching_names
matching_names-All [] = tt
matching_names-All (name ∷ names) = elim (Bool-cases (matches_all computer_uuid_re name)) [
  | inl yes_e ↦ rw (yes_e, matching_names) (yes_e, matching_names-All names)
  | inr no_e ↦ rw (no_e, matching_names) (matching_names-All names)
]

chosen-IsComputer :
    (cu : Option Text) (layouts : List Arq7ComputerLayout)
    → All (λ l. IsComputer l.computer_uuid) layouts
    → All (λ l. IsComputer l.computer_uuid) (chosen cu layouts)
unfolding chosen
chosen-IsComputer none layouts h = h
chosen-IsComputer (some cu) [] h = tt
chosen-IsComputer (some cu) (layout ∷ layouts) (h, hs) =
    elim (Bool-cases (list_eq layout.computer_uuid cu)) [
      | inl same ↦ rw (same, chosen) (h, chosen-IsComputer (some cu) layouts hs)
      | inr other ↦ rw (other, chosen) (chosen-IsComputer (some cu) layouts hs)
    ]

-- The subtrees that are discovered are named like computers.
module _ {State : Type 0} (b : Backend State) (completed : List Text → List Text) (s : State)
    (root : Text) (concurrency : ℕ) (enumerate_objects : Bool) where
  layouts-IsComputer :
      (names : List Text)
      → All IsComputer names
      → All
          (λ l. IsComputer l.computer_uuid)
          (map (computer_layout b completed s root concurrency enumerate_objects) names)
  unfolding computer_layout
  layouts-IsComputer [] h = tt
  layouts-IsComputer (name ∷ names) (h, hs) = (h, layouts-IsComputer names hs)

  pub discovered-IsComputer :
      (cu : Option Text)
      → All
          (λ l. IsComputer l.computer_uuid)
          (chosen cu (discover_layout b completed s root concurrency enumerate_objects))
  unfolding discover_layout
  discovered-IsComputer cu =
      chosen-IsComputer cu (discover_layout b completed s root concurrency enumerate_objects)
        (elim (Bool-cases (b.is_dir s root)) [
          | inl dir ↦
              rw (dir, discover_layout)
                (layouts-IsComputer _ (matching_names-All (or_empty_list (b.list_dir s root))))
          | inr no_dir ↦ rw (no_dir, discover_layout) tt
        ])

module _ {State : Type 0} (b : Backend State) (p : Primitives) (py : Python) (fuel : ℕ)
    (dry_run : Bool) (root : Text) (D : Text → Type 0) where
  -- The orphans among the objects of a computer, and among its packs, satisfy `D`.
  abbrev pub OrphansIn : Text → List Text → Type 0
  OrphansIn cu referenced =
      (path : Text)
      → InFamily dry_run (join (computer_root root cu) standardobjects_dir)
          (OrphanName py.lower referenced) path
      → D path

  abbrev pub OrphanPacksIn : Text → List Text → Type 0
  OrphanPacksIn cu live =
      (family path : Text)
      → IsPackFamily family
      → InFamily dry_run (join (computer_root root cu) family)
          (OrphanPack (join (computer_root root cu) family) live) path
      → D path

  pub sweep_standardobjects-Deletes :
      (cu : Text) (referenced : List Text) (a : State × GcResult)
      → OrphansIn cu referenced
      → Deletes b D a.0 (sweep_standardobjects b p py fuel dry_run root cu referenced a).0
  unfolding sweep_standardobjects
  sweep_standardobjects-Deletes cu referenced a f = Deletes-mono b f (
      objects-Deletes b dry_run (join (computer_root root cu) standardobjects_dir) py.lower
        referenced a)

  sweep_packs-Deletes :
      (cu : Text) (live : List Text) (a : State × GcResult)
      → OrphanPacksIn cu live
      → Deletes b D a.0 (sweep_packs b p py fuel dry_run root cu live a).0
  unfolding sweep_packs
  sweep_packs-Deletes cu live a f =
      let one = λ (g : Text) (h : IsPackFamily g) (c : State × GcResult).
        Deletes-mono b (λ path. f g path h)
          (packs-Deletes b dry_run (join (computer_root root cu) g) live c) in
      Deletes-trans b (one treepacks_dir (inl refl) a) (
        Deletes-trans b (one blobpacks_dir (inr (inl refl)) _)
          (one largeblobpacks_dir (inr (inr refl)) _))

  gc_packs-Deletes :
      (keyset : Keyset) (cu : Text) (s : State) (r : GcResult)
      → ((live : List Text)
          → collect_live_pack_paths b p py keyset s fuel root cu ≡ ok live
          → OrphanPacksIn cu live)
      → Deletes b D s (gc_packs b p py fuel dry_run root keyset cu (s, r)).0
  unfolding gc_packs
  gc_packs-Deletes keyset cu s r f =
      elim (Result-cases (collect_live_pack_paths b p py keyset s fuel root cu)) [
        | inl (e, failed) ↦ rw (failed, gc_packs) (Deletes-refl b s)
        | inr (live, returned) ↦
            rw (returned, gc_packs) (sweep_packs-Deletes cu live (s, r) (f live returned))
      ]

  -- The packs are collected in the state that the deletion of the objects has left.
  pub gc_computer-Deletes :
      (keyset : Keyset) (cu : Text) (s : State) (r : GcResult)
      → ((referenced : List Text)
          → collect_referenced_blobs b p py keyset s fuel root cu ≡ ok referenced
          → OrphansIn cu referenced)
      → ((s1 : State) (live : List Text)
          → Deletes b D s s1
          → collect_live_pack_paths b p py keyset s1 fuel root cu ≡ ok live
          → OrphanPacksIn cu live)
      → Deletes b D s (gc_computer b p py fuel dry_run root keyset cu s r).0
  unfolding gc_computer
  gc_computer-Deletes keyset cu s r f g =
      elim (Result-cases (collect_referenced_blobs b p py keyset s fuel root cu)) [
        | inl (e, failed) ↦ rw (failed, gc_computer) (Deletes-refl b s)
        | inr (referenced, returned) ↦
            let swept =
              sweep_standardobjects-Deletes cu referenced (s, r) (f referenced returned) in
            let a = sweep_standardobjects b p py fuel dry_run root cu referenced (s, r) in
            rw (returned, gc_computer)
              (Deletes-trans b swept
                (gc_packs-Deletes keyset cu a.0 a.1 (λ live. g a.0 live swept)))
      ]

  pub gc_layouts-Deletes :
      (s0 : State) (password : Text)
      → ((cu : Text) (keyset : Keyset) (s : State) (r : GcResult)
          → IsComputer cu
          → Deletes b D s0 s
          → open_keyset b p root password s cu ≡ some keyset
          → Deletes b D s (gc_computer b p py fuel dry_run root keyset cu s r).0)
      → (layouts : List Arq7ComputerLayout) (s : State) (r : GcResult)
      → All (λ l. IsComputer l.computer_uuid) layouts
      → Deletes b D s0 s
      → Deletes b D s (gc_layouts b p py fuel dry_run root password layouts s r).0
  unfolding gc_layouts
  gc_layouts-Deletes s0 password f [] s r cs d = Deletes-refl b s
  gc_layouts-Deletes s0 password f (layout ∷ layouts) s r (c, cs) d =
      let cu = layout.computer_uuid in
      elim (Option-cases (open_keyset b p root password s cu)) [
        | inl none_e ↦
            rw (none_e, gc_layouts)
              (gc_layouts-Deletes s0 password f layouts s (gc_failed cu r) cs d)
        | inr (keyset, some_e) ↦
            let one = f cu keyset s r c d some_e in
            let out = gc_computer b p py fuel dry_run root keyset cu s r in
            elim (Result-cases out.1) [
              | inl (e, failed) ↦ rw (some_e, failed, gc_layouts) one
              | inr (r', returned) ↦
                  rw (some_e, returned, gc_layouts)
                    (Deletes-trans b one (
                      gc_layouts-Deletes s0 password f layouts out.0 r' cs (Deletes-trans b d one)))
            ]
      ]
