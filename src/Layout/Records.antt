-- ===== src/Layout/Records.antt =====
-- `list_backuprecords` and `find_latest_backuprecord`. `none` is a call that raises: `isdigit` holds of
-- more digits than `int` reads.
use arq_backup_tui.Common.{
  Bool, ◌&&◌, Option, none, some, List, [], ◌∷◌, ◌++◌, map, length, drop, take, ◌-◌, leb, list_eq,
  ◌==◌, if◌then◌else◌,
}
use mathlib.Core.List.{reverse}
use arq_backup_tui.Common.Int.{ℤ, int_le}
use arq_backup_tui.Common.Sort.{sorted, text_le, pair_le}
use arq_backup_tui.Wire.Types.{Text}
use arq_backup_tui.Pack.Builder.{codes}
use arq_backup_tui.Backend.{Backend}
use arq_backup_tui.Record.Values.{Python}
use arq_backup_tui.Layout.Paths.{backupfolders_dir, backuprecords_dir, join, computer_root}
use arq_backup_tui.Layout.Discover.{or_empty_list}

abbrev pub record_suffix : Text
record_suffix = codes ".backuprecord"

-- `name.endswith(suffix)`, and what stands before the suffix.
unfoldable pub ends_with : Text → Text → Bool
ends_with name suffix =
    leb (length suffix) (length name) && list_eq (drop (length name - length suffix) name) suffix

unfoldable pub stem_of : Text → Text → Text
stem_of name suffix = take (length name - length suffix) name

abbrev pub RecordKey : Type 0
RecordKey = (Text × ℤ) × Text

unfoldable pub key_le : RecordKey → RecordKey → Bool
key_le = pair_le (pair_le text_le int_le) text_le

module _ (py : Python) where
  -- `outer.isdigit() and len(outer) == 5`
  unfoldable pub is_outer : Text → Bool
  is_outer outer = py.isdigit outer && (length outer == 5)

  unfoldable pub outer_dirs : List Text → List Text
  outer_dirs [] = []
  outer_dirs (d ∷ ds) = let rest = outer_dirs ds in if is_outer d then d ∷ rest else rest

  -- The numbers of the records among the names of a directory.
  unfoldable pub ranked : List Text → Option (List (ℤ × Text))
  ranked [] = some []
  ranked (n ∷ ns) =
      let rest = ranked ns in
      let stem = stem_of n record_suffix in
      if ends_with n record_suffix && py.isdigit stem
      then (elim (py.int_of_text stem) [
        | none ↦ none
        | some number ↦ elim rest [ none ↦ none | some found ↦ some ((number, n) ∷ found) ]
      ])
      else rest

unfoldable pub records_base : Text → Text → Text → Text
records_base root computer_uuid folder_uuid =
    join (join (join (computer_root root computer_uuid) backupfolders_dir) folder_uuid)
      backuprecords_dir

unfoldable pub keyed : Text → Text → ℤ × Text → RecordKey
keyed base outer (number, n) = ((outer, number), join (join base outer) n)

-- One directory's records before those of the others.
unfoldable pub keyed_onto :
    Text → Text → Option (List (ℤ × Text)) → Option (List RecordKey) → Option (List RecordKey)
keyed_onto base outer none rest = none
keyed_onto base outer (some found) none = none
keyed_onto base outer (some found) (some rest) = some (map (keyed base outer) found ++ rest)

module _ {State : Type 0} (b : Backend State) (py : Python) where
  unfoldable pub all_ranked : State → Text → List Text → Option (List RecordKey)
  all_ranked s base [] = some []
  all_ranked s base (outer ∷ outers) =
      keyed_onto base outer (ranked py (or_empty_list (b.list_dir s (join base outer))))
        (all_ranked s base outers)

  unfoldable pub list_backuprecords : State → Text → Text → Text → Option (List Text)
  list_backuprecords s root computer_uuid folder_uuid =
      let base = records_base root computer_uuid folder_uuid in
      if b.is_dir s base
      then (elim (all_ranked s base (outer_dirs py (or_empty_list (b.list_dir s base)))) [
        | none ↦ none
        | some out ↦ some (map (λ (entry : RecordKey). entry.1) (sorted key_le out))
      ])
      else some []

  -- The first directory, from the last on, that has a record, and its last record.
  unfoldable pub latest_in : State → Text → List Text → Option (Option Text)
  latest_in s base [] = some none
  latest_in s base (outer ∷ outers) =
      let rest = latest_in s base outers in
      elim (ranked py (or_empty_list (b.list_dir s (join base outer)))) [
        | none ↦ none
        | some found ↦ elim (reverse (sorted (pair_le int_le text_le) found)) [
          | [] ↦ rest
          | last ∷ others ↦ some (some (join (join base outer) last.1))
        ]
      ]

  unfoldable pub find_latest_backuprecord : State → Text → Text → Text → Option (Option Text)
  find_latest_backuprecord s root computer_uuid folder_uuid =
      let base = records_base root computer_uuid folder_uuid in
      if b.is_dir s base
      then latest_in s base
          (reverse (sorted text_le (outer_dirs py (or_empty_list (b.list_dir s base)))))
      else some none
