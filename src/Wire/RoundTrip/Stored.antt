-- ===== src/Wire/RoundTrip/Stored.antt =====
-- The ranges of the unsigned fields, and what a node is after it was written and read: arq_writer/
-- serialize.py drops the fields that its tree version lacks, and fixes the trailing block of version 4.
use arq_backup_tui.Common.{
  ℕ, ◌^◌, ◌<◌, Bool, false, Option, none, some, List, [], ◌∷◌, All, length, leb, if◌then◌else◌,
}
use arq_backup_tui.Common.Int.{pos}
use arq_backup_tui.Common.Result.{ok, err}
use arq_backup_tui.Wire.Types.{BlobLoc, NodeFields, Node, file_node, tree_node, TreeChild, Tree}
use arq_backup_tui.Wire.Serialize.{
  Written, reparse_min_version, tree_version_v4, v4_trailing_block_of,
}

pub record BlobLocInRange (loc : BlobLoc) : Type 0 where
  pub offset : loc.offset < 2 ^ 64
  pub length : loc.length < 2 ^ 64
  pub compression_type : loc.compression_type < 2 ^ 32

abbrev pub OptionInRange : Option BlobLoc → Type 0
OptionInRange none = Unit
OptionInRange (some loc) = BlobLocInRange loc

abbrev pub LocsInRange : List BlobLoc → Type 0
LocsInRange locs = (length locs < 2 ^ 64) × All BlobLocInRange locs

pub record FieldsInRange (f : NodeFields) : Type 0 where
  pub item_size : f.item_size < 2 ^ 64
  pub contained_files_count : f.contained_files_count < 2 ^ 64
  pub mac_st_ino : f.mac_st_ino < 2 ^ 64
  pub mac_st_mode : f.mac_st_mode < 2 ^ 32
  pub mac_st_nlink : f.mac_st_nlink < 2 ^ 32
  pub mac_st_uid : f.mac_st_uid < 2 ^ 32
  pub mac_st_gid : f.mac_st_gid < 2 ^ 32
  pub win_attrs : f.win_attrs < 2 ^ 32
  pub win_reparse_tag : f.win_reparse_tag < 2 ^ 32
  pub computer_os_type : f.computer_os_type < 2 ^ 32
  pub acl_blob_loc : OptionInRange f.acl_blob_loc
  pub xattrs_blob_locs : LocsInRange f.xattrs_blob_locs

abbrev pub NodeInRange : Node → Type 0
NodeInRange (file_node locs f) = LocsInRange locs × FieldsInRange f
NodeInRange (tree_node loc f) = BlobLocInRange loc × FieldsInRange f

abbrev pub TreeInRange : Tree → Type 0
TreeInRange t =
    (length t.children < 2 ^ 64) × All (λ (c : TreeChild). NodeInRange c.node) t.children

abbrev pub written_or_empty : Written → List ℕ
written_or_empty (ok bs) = bs
written_or_empty (err e) = []

unfoldable pub stored_reparse : ℕ → NodeFields → ℕ × Bool
stored_reparse version f =
    if leb reparse_min_version version
    then (f.win_reparse_tag, f.win_reparse_point_is_directory)
    else (0, false)

-- The bytes of the block, which are those of the field where it holds 38.
unfoldable pub stored_block : ℕ → NodeFields → List ℕ
stored_block version f =
    if leb tree_version_v4 version then written_or_empty (v4_trailing_block_of f) else []

unfoldable pub stored_fields : ℕ → NodeFields → NodeFields
stored_fields version f = record f {
  win_reparse_tag = (stored_reparse version f).0;
  win_reparse_point_is_directory = (stored_reparse version f).1;
  v4_trailing_block = stored_block version f;
  v4_scanned_at_sec = pos 0;
  v4_scanned_at_nsec = pos 0;
}

unfoldable pub stored_node : ℕ → Node → Node
stored_node version (file_node locs f) = file_node locs (stored_fields version f)
stored_node version (tree_node loc f) = tree_node loc (stored_fields version f)

abbrev pub stored_child : ℕ → TreeChild → TreeChild
stored_child version c = record { name = c.name; node = stored_node version c.node }

unfoldable pub stored_children : ℕ → List TreeChild → List TreeChild
stored_children version [] = []
stored_children version (c ∷ cs) = stored_child version c ∷ stored_children version cs

unfoldable pub stored_tree : ℕ → Tree → Tree
stored_tree version t = record { children = stored_children version t.children; version = version }
