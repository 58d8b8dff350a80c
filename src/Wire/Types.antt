-- ===== src/Wire/Types.antt =====
-- arq_writer/types.py: BlobLoc, the two kinds of Node, Tree. A text is the list of its code points.
-- Integers that are written unsigned are natural numbers here; the others are signed.
use arq_backup_tui.Common.{ℕ, Bool, Option, List}
use arq_backup_tui.Common.Int.{ℤ}

abbrev pub Text : Type 0
Text = List ℕ

pub record BlobLoc : Type 0 where
  pub blob_identifier : Text
  pub is_packed : Bool
  pub is_large_pack : Bool
  pub relative_path : Text
  pub offset : ℕ
  pub length : ℕ
  pub stretch_encryption_key : Bool
  pub compression_type : ℕ

-- The fields that `FileNode` and `TreeNode` share.
pub record NodeFields : Type 0 where
  pub item_size : ℕ
  pub contained_files_count : ℕ
  pub mtime_sec : ℤ
  pub mtime_nsec : ℤ
  pub ctime_sec : ℤ
  pub ctime_nsec : ℤ
  pub create_time_sec : ℤ
  pub create_time_nsec : ℤ
  pub username : Option Text
  pub group_name : Option Text
  pub deleted : Bool
  pub mac_st_dev : ℤ
  pub mac_st_ino : ℕ
  pub mac_st_mode : ℕ
  pub mac_st_nlink : ℕ
  pub mac_st_uid : ℕ
  pub mac_st_gid : ℕ
  pub mac_st_rdev : ℤ
  pub mac_st_flags : ℤ
  pub win_attrs : ℕ
  pub win_reparse_tag : ℕ
  pub win_reparse_point_is_directory : Bool
  pub computer_os_type : ℕ
  pub acl_blob_loc : Option BlobLoc
  pub xattrs_blob_locs : List BlobLoc
  pub v4_trailing_block : List ℕ
  pub v4_scanned_at_sec : ℤ
  pub v4_scanned_at_nsec : ℤ

pub data Node : Type 0 where
  file_node : List BlobLoc → NodeFields → Node
  tree_node : BlobLoc → NodeFields → Node

pub record TreeChild : Type 0 where
  pub name : Text
  pub node : Node

pub record Tree : Type 0 where
  pub children : List TreeChild
  pub version : ℕ
