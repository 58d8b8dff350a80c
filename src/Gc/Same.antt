-- ===== src/Gc/Same.antt =====
-- Two states that agree on the folders of a computer's records and on the trees below them have the same
-- records, trees and named blobs.
use arq_backup_tui.Common.{
  ◌≡◌, refl, sym, subst, Option, none, some, List, [], ◌∷◌, ◌++◌, append-nil, append_assoc, map,
  Option-cases, All, inl, inr, Bool-cases,
}
use arq_backup_tui.Common.Sort.{sorted, All-sorted}
use arq_backup_tui.Common.Int.{ℤ}
use arq_backup_tui.Wire.Types.{Text}
use arq_backup_tui.Backend.{Backend}
use arq_backup_tui.Record.Values.{Python}
use arq_backup_tui.Layout.Paths.{backupfolders_dir, backuprecords_dir, join, computer_root}
use arq_backup_tui.Layout.Discover.{or_empty_list}
use arq_backup_tui.Layout.Records.{
  RecordKey, key_le, keyed, keyed_onto, ranked, outer_dirs, records_base, all_ranked,
  list_backuprecords,
}
use arq_backup_tui.Gc.Live.{IsRecord}
use arq_backup_tui.Gc.Meet.{All-at}

-- A path below the folders of a computer, or their directory.
abbrev pub InFolders : Text → Text → Text → Type 0
InFolders root cu path =
    (rest : Text) × (path ≡ join (computer_root root cu) backupfolders_dir ++ rest)

pub InFolders-join :
    (root cu path name : Text) → InFolders root cu path → InFolders root cu (join path name)
unfolding join
InFolders-join root cu path name (rest, e) = (
  rest ++ (0x2f ∷ name),
  rw e (append_assoc (join (computer_root root cu) backupfolders_dir) rest (0x2f ∷ name)),
)

pub InFolders-root :
    (root cu : Text) → InFolders root cu (join (computer_root root cu) backupfolders_dir)
InFolders-root root cu = ([], sym (append-nil (join (computer_root root cu) backupfolders_dir)))

pub InFolders-base : (root cu fu : Text) → InFolders root cu (records_base root cu fu)
unfolding records_base
InFolders-base root cu fu =
    let bf = join (computer_root root cu) backupfolders_dir in
    InFolders-join root cu (join bf fu) backuprecords_dir
      (InFolders-join root cu bf fu (InFolders-root root cu))

module _ {State : Type 0} (b : Backend State) (py : Python) (root cu : Text) where
  keyed_onto-some :
      (base outer : Text) (found : Option (List (ℤ × Text))) (rest : Option (List RecordKey))
      (out : List RecordKey)
      → keyed_onto base outer found rest ≡ some out
      → (f : List (ℤ × Text)) × (r : List RecordKey) × (found ≡ some f)
        × (rest ≡ some r)
        × (map (keyed base outer) f ++ r ≡ out)
  unfolding keyed_onto
  keyed_onto-some base outer none rest out e = cc
  keyed_onto-some base outer (some f) none out e = cc
  keyed_onto-some base outer (some f) (some r) out e = (f, r, refl, refl, cc)

  -- The paths of the records are below the folders.
  All-keyed :
      (base outer : Text) (found : List (ℤ × Text)) (rest : List RecordKey)
      → InFolders root cu base
      → All (λ e. InFolders root cu e.1) rest
      → All (λ e. InFolders root cu e.1) (map (keyed base outer) found ++ rest)
  unfolding keyed
  All-keyed base outer [] rest h hs = hs
  All-keyed base outer ((number, n) ∷ found) rest h hs = (
    InFolders-join root cu (join base outer) n (InFolders-join root cu base outer h),
    All-keyed base outer found rest h hs,
  )

  all_ranked-InFolders :
      (s : State) (base : Text) (outers : List Text) (out : List RecordKey)
      → InFolders root cu base
      → all_ranked b py s base outers ≡ some out
      → All (λ e. InFolders root cu e.1) out
  unfolding all_ranked
  all_ranked-InFolders s base [] out h e =
      let same : [] ≡ out = cc in subst (All (λ k. InFolders root cu k.1)) same tt
  all_ranked-InFolders s base (outer ∷ outers) out h e =
      let found = ranked py (or_empty_list (b.list_dir s (join base outer))) in
      let rest = all_ranked b py s base outers in
      let (f, r, found_e, rest_e, same) = keyed_onto-some base outer found rest out e in
      subst (All (λ k. InFolders root cu k.1)) same
        (All-keyed base outer f r h (all_ranked-InFolders s base outers r h rest_e))

  All-paths :
      (out : List RecordKey)
      → All (λ e. InFolders root cu e.1) out
      → All (InFolders root cu) (map (λ (e : RecordKey). e.1) out)
  All-paths [] h = tt
  All-paths (e ∷ es) (h, hs) = (h, All-paths es hs)

  list_backuprecords-InFolders :
      (s : State) (fu : Text) (paths : List Text)
      → list_backuprecords b py s root cu fu ≡ some paths
      → All (InFolders root cu) paths
  unfolding list_backuprecords
  list_backuprecords-InFolders s fu paths e =
      let base = records_base root cu fu in
      elim (Bool-cases (b.is_dir s base)) [
        | inr no_dir ↦
            let e1 : some [] ≡ some paths = rw (no_dir, list_backuprecords) at e in
            let same : [] ≡ paths = cc in subst (All (InFolders root cu)) same tt
        | inl is_there ↦
            elim (Option-cases
              (all_ranked b py s base (outer_dirs py (or_empty_list (b.list_dir s base))))) [
                | inl none_e ↦
                    let e1 : ◌≡◌ {A = Option (List Text)} none (some paths) =
                      rw (is_there, none_e, list_backuprecords) at e in
                    absurd cc
                | inr (out, some_e) ↦
                    let e1 : some (map (λ (k : RecordKey). k.1) (sorted key_le out)) ≡ some paths =
                      rw (is_there, some_e, list_backuprecords) at e in
                    let same : map (λ (k : RecordKey). k.1) (sorted key_le out) ≡ paths = cc in
                    subst (All (InFolders root cu)) same (
                      All-paths (sorted key_le out) (
                        All-sorted key_le (λ k. InFolders root cu k.1) out
                          (all_ranked-InFolders s base _ out (InFolders-base root cu fu) some_e)))
              ]
      ]

  pub IsRecord-InFolders :
      (s : State) (path : Text) → IsRecord b py root cu s path → InFolders root cu path
  IsRecord-InFolders s path r =
      All-at (InFolders root cu) r.paths path
        (list_backuprecords-InFolders s r.folder r.paths r.lists_records) r.in_paths
