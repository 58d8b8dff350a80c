-- ===== src/Layout/Discover.antt =====
-- `_enumerate_sharded_dir` and `discover_layout`.
use arq_backup_tui.Common.{
  ℕ, Bool, true, ◌&&◌, ◌||◌, Option, none, some, List, [], ◌∷◌, ◌++◌, map, length, leb, ◌==◌,
  if◌then◌else◌, ◌+◌,
}
use arq_backup_tui.Common.Sort.{sorted, text_le, pair_le}
use arq_backup_tui.Wire.Types.{Text}
use arq_backup_tui.Backend.{Backend}
use arq_backup_tui.Layout.Paths.{
  blobpacks_dir, treepacks_dir, largeblobpacks_dir, standardobjects_dir, backupfolders_dir,
  keyset_file, join, computer_root, is_hex, matches_all, pack_name_re, standardobject_name_re,
  computer_uuid_re,
}

pub record Arq7ComputerLayout : Type 0 where
  pub computer_uuid : Text
  pub blobpacks : List (Text × Text)
  pub treepacks : List (Text × Text)
  pub largeblobpacks : List (Text × Text)
  pub standardobjects : List (Text × Text)
  pub backup_folder_uuids : List Text
  pub has_keyset : Bool

unfoldable pub total_objects : Arq7ComputerLayout → ℕ
total_objects layout =
    length layout.blobpacks
    + length layout.treepacks
    + length layout.largeblobpacks
    + length layout.standardobjects

abbrev all_hex : Text → Bool
all_hex [] = true
all_hex (c ∷ cs) = is_hex c && all_hex cs

-- One or two hexadecimal digits.
unfoldable pub is_shard : Text → Bool
is_shard s = leb 1 (length s) && leb (length s) 2 && all_hex s

unfoldable pub valid_shards : List Text → List Text
valid_shards [] = []
valid_shards (s ∷ shards) = let rest = valid_shards shards in if is_shard s then s ∷ rest else rest

-- What a `list_dir` that may raise inside a `try` gives.
abbrev pub or_empty_list : Option (List Text) → List Text
or_empty_list none = []
or_empty_list (some names) = names

unfoldable pub matching : List (ℕ → Bool) → Text → List Text → List (Text × Text)
matching name_re shard [] = []
matching name_re shard (name ∷ names) =
    let rest = matching name_re shard names in
    if matches_all name_re name then (shard, name) ∷ rest else rest

unfoldable pub matching_names : List (ℕ → Bool) → List Text → List Text
matching_names name_re [] = []
matching_names name_re (name ∷ names) =
    let rest = matching_names name_re names in
    if matches_all name_re name then name ∷ rest else rest

-- `completed` is the order in which the threads of the pool end; it is not looked at where the shards are
-- listed one after the other.
module _ {State : Type 0} (b : Backend State) (completed : List Text → List Text) where
  unfoldable pub list_one : State → Text → Text → List Text
  list_one s base_path shard = or_empty_list (b.list_dir s (join base_path shard))

  unfoldable pub list_shards : State → Text → List (ℕ → Bool) → List Text → List (Text × Text)
  list_shards s base_path name_re [] = []
  list_shards s base_path name_re (shard ∷ shards) =
      matching name_re shard (list_one s base_path shard) ++ list_shards s base_path name_re shards

  unfoldable pub listing_order : ℕ → List Text → List Text
  listing_order concurrency shards =
      if leb concurrency 1 || (length shards == 1) then shards else completed shards

  unfoldable pub enumerate_sharded_dir : State → Text → List (ℕ → Bool) → ℕ → List (Text × Text)
  enumerate_sharded_dir s base_path name_re concurrency =
      if b.is_dir s base_path
      then (let shards = valid_shards (or_empty_list (b.list_dir s base_path)) in
          sorted (pair_le text_le text_le)
            (list_shards s base_path name_re (listing_order concurrency shards)))
      else []

  unfoldable pub folder_uuids : State → Text → List Text
  folder_uuids s bf_root =
      if b.is_dir s bf_root
      then sorted text_le (matching_names computer_uuid_re (or_empty_list (b.list_dir s bf_root)))
      else []

  unfoldable pub computer_layout : State → Text → ℕ → Bool → Text → Arq7ComputerLayout
  computer_layout s root concurrency enumerate_objects entry =
      let cu_root = computer_root root entry in
      let objects = λ (family : Text) (name_re : List (ℕ → Bool)).
        if enumerate_objects
        then enumerate_sharded_dir s (join cu_root family) name_re concurrency
        else [] in
      record {
        computer_uuid = entry;
        blobpacks = objects blobpacks_dir pack_name_re;
        treepacks = objects treepacks_dir pack_name_re;
        largeblobpacks = objects largeblobpacks_dir pack_name_re;
        standardobjects = objects standardobjects_dir standardobject_name_re;
        backup_folder_uuids = folder_uuids s (join cu_root backupfolders_dir);
        has_keyset = b.exists s (join cu_root keyset_file);
      }

  unfoldable pub discover_layout : State → Text → ℕ → Bool → List Arq7ComputerLayout
  discover_layout s root concurrency enumerate_objects =
      if b.is_dir s root
      then map (computer_layout s root concurrency enumerate_objects)
          (matching_names computer_uuid_re (or_empty_list (b.list_dir s root)))
      else []
