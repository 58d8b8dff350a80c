-- ===== src/Wire/Parse.antt =====
-- The parsers of arq_reader/parse.py.
use arq_backup_tui.Common.{
  ℕ, zero, suc, Bool, true, false, Option, none, some, List, [], ◌∷◌, leb, if◌then◌else◌,
}
use arq_backup_tui.Common.Int.{pos}
use arq_backup_tui.Common.Result
use arq_backup_tui.Common.Result.{Result}
use arq_backup_tui.Wire.Types.{
  Text, BlobLoc, NodeFields, Node, file_node, tree_node, TreeChild, Tree,
}
use arq_backup_tui.Wire.Serialize.{reparse_min_version, v4_block_bytes}
use arq_backup_tui.Wire.Errors.{ParseError}
use arq_backup_tui.Wire.Reader.{
  Parser, ◌>>=◌, pure, read_raw, read_bool, read_uint32, read_uint64, read_int32, read_int64,
  read_string,
}

-- `s or ""`
unfoldable pub or_empty : Option Text → Text
or_empty none = []
or_empty (some s) = s

-- `[p(reader) for _ in range(count)]`
unfoldable pub parse_many : {A : Type 0} → Parser A → ℕ → Parser (List A)
parse_many p zero = pure []
parse_many p (suc count) = do x ← p; xs ← parse_many p count; pure (x ∷ xs)

unfoldable pub parse_blobloc : Parser BlobLoc
parse_blobloc = do
  blob_id ← read_string
  is_packed ← read_bool
  is_large_pack ← read_bool
  rel_path ← read_string
  offset ← read_uint64
  count ← read_uint64
  stretch ← read_bool
  compression ← read_uint32
  pure (record {
    blob_identifier = or_empty blob_id;
    is_packed = is_packed;
    is_large_pack = is_large_pack;
    relative_path = or_empty rel_path;
    offset = offset;
    length = count;
    stretch_encryption_key = stretch;
    compression_type = compression;
  })

unfoldable pub parse_when : {A : Type 0} → Bool → Parser A → Parser (Option A)
parse_when true p = do a ← p; pure (some a)
parse_when false p = pure none

unfoldable pub parse_optional_blobloc : Parser (Option BlobLoc)
parse_optional_blobloc = do present ← read_bool; parse_when present parse_blobloc

unfoldable pub parse_counted_bloblocs : Parser (List BlobLoc)
parse_counted_bloblocs = do count ← read_uint64; parse_many parse_blobloc count

-- The fields that only later versions have, with what the parser takes where they are absent.
unfoldable pub parse_reparse : ℕ → Parser (ℕ × Bool)
parse_reparse tree_version =
    if leb reparse_min_version tree_version
    then (do tag ← read_uint32; is_dir ← read_bool; pure (tag, is_dir))
    else pure (0, false)

unfoldable pub parse_v4_block : ℕ → Parser (List ℕ)
parse_v4_block tree_version = if leb 4 tree_version then read_raw v4_block_bytes else pure []

-- Everything behind the data locations. `computer_os` was read before them.
unfoldable pub parse_fields : ℕ → ℕ → Parser NodeFields
parse_fields tree_version computer_os = do
  acl ← parse_optional_blobloc
  xattrs ← parse_counted_bloblocs
  item_size ← read_uint64
  contained ← read_uint64
  mtime_sec ← read_int64
  mtime_nsec ← read_int64
  ctime_sec ← read_int64
  ctime_nsec ← read_int64
  create_sec ← read_int64
  create_nsec ← read_int64
  username ← read_string
  group_name ← read_string
  deleted ← read_bool
  st_dev ← read_int32
  st_ino ← read_uint64
  st_mode ← read_uint32
  st_nlink ← read_uint32
  st_uid ← read_uint32
  st_gid ← read_uint32
  st_rdev ← read_int32
  st_flags ← read_int32
  win_attrs ← read_uint32
  reparse ← parse_reparse tree_version
  block ← parse_v4_block tree_version
  pure (record {
    item_size = item_size;
    contained_files_count = contained;
    mtime_sec = mtime_sec;
    mtime_nsec = mtime_nsec;
    ctime_sec = ctime_sec;
    ctime_nsec = ctime_nsec;
    create_time_sec = create_sec;
    create_time_nsec = create_nsec;
    username = username;
    group_name = group_name;
    deleted = deleted;
    mac_st_dev = st_dev;
    mac_st_ino = st_ino;
    mac_st_mode = st_mode;
    mac_st_nlink = st_nlink;
    mac_st_uid = st_uid;
    mac_st_gid = st_gid;
    mac_st_rdev = st_rdev;
    mac_st_flags = st_flags;
    win_attrs = win_attrs;
    win_reparse_tag = reparse.0;
    win_reparse_point_is_directory = reparse.1;
    computer_os_type = computer_os;
    acl_blob_loc = acl;
    xattrs_blob_locs = xattrs;
    v4_trailing_block = block;
    v4_scanned_at_sec = pos 0;
    v4_scanned_at_nsec = pos 0;
  })

unfoldable pub parse_file_node : ℕ → Parser Node
parse_file_node tree_version = do
  computer_os ← read_uint32
  data_locs ← parse_counted_bloblocs
  fields ← parse_fields tree_version computer_os
  pure (file_node data_locs fields)

-- The data locations of a directory are read and dropped.
unfoldable pub parse_tree_node : ℕ → Parser Node
parse_tree_node tree_version = do
  tree_blob_loc ← parse_blobloc
  computer_os ← read_uint32
  data_locs ← parse_counted_bloblocs
  fields ← parse_fields tree_version computer_os
  pure (tree_node tree_blob_loc fields)

unfoldable pub parse_node_kind : ℕ → Bool → Parser Node
parse_node_kind tree_version is_tree =
    if is_tree then parse_tree_node tree_version else parse_file_node tree_version

unfoldable pub parse_node : ℕ → Parser Node
parse_node tree_version = do is_tree ← read_bool; parse_node_kind tree_version is_tree

unfoldable pub parse_child : ℕ → Parser TreeChild
parse_child version = do
  name ← read_string
  node ← parse_node version
  pure (record { name = or_empty name; node = node })

unfoldable pub tree_parser : Parser Tree
tree_parser = do
  version ← read_uint32
  count ← read_uint64
  children ← parse_many (parse_child version) count
  pure (record { children = children; version = version })

-- Bytes behind the tree are not looked at.
unfoldable pub parse_tree : List ℕ → Result ParseError Tree
parse_tree bytes = Result.◌>>=◌ (tree_parser bytes) (λ r. Result.ok r.0)
