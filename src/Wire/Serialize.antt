-- ===== src/Wire/Serialize.antt =====
-- arq_writer/serialize.py. A writer gives the bytes or what it raises; `◌+=◌` is `out += …`, and
-- `write_nothing` is the empty end of a sequence.
use arq_backup_tui.Common.{
  ℕ, zero, suc, ◌/◌, ◌%◌, ◌^◌, Bool, true, false, ◌&&◌, Option, none, some, List, [], ◌∷◌, ◌++◌,
  length, replicate, ltb, leb, ◌==◌, if◌then◌else◌,
}
use arq_backup_tui.Common.Int.{ℤ, pos, negsuc}
use arq_backup_tui.Common.Result.{Result, ok, err, ◌>>=◌}
use arq_backup_tui.Wire.Errors.{WriteError, int_range}
use arq_backup_tui.Wire.Bytes.{big_endian, to_word}
use arq_backup_tui.Wire.Utf8.{encode}
use arq_backup_tui.Wire.Types.{
  Text, BlobLoc, NodeFields, Node, file_node, tree_node, TreeChild, Tree,
}

abbrev pub Written : Type 0
Written = Result WriteError (List ℕ)

infixr 65 ◌+=◌
unfoldable pub ◌+=◌ : Written → Written → Written
m += n = m >>= λ xs. n >>= λ ys. ok (xs ++ ys)

unfoldable pub write_nothing : Written
write_nothing = ok []

unfoldable pub write_bool : Bool → Written
write_bool true = ok (1 ∷ [])
write_bool false = ok (0 ∷ [])

-- `value & 0xFFFFFFFF`
unfoldable pub write_uint32 : ℕ → Written
write_uint32 value = ok (big_endian 4 (value % 2 ^ 32))

unfoldable pub write_uint64 : ℕ → Written
write_uint64 value = ok (big_endian 8 (value % 2 ^ 64))

-- Whether `struct.pack` takes a signed value into a word of `m` values.
unfoldable pub fits_signed : ℕ → ℤ → Bool
fits_signed m (pos n) = ltb n (m / 2)
fits_signed m (negsuc n) = ltb n (m / 2)

unfoldable pub write_int32 : ℤ → Written
write_int32 value =
    if fits_signed (2 ^ 32) value then ok (big_endian 4 (to_word (2 ^ 32) value)) else err int_range

unfoldable pub write_int64 : ℤ → Written
write_int64 value =
    if fits_signed (2 ^ 64) value then ok (big_endian 8 (to_word (2 ^ 64) value)) else err int_range

-- `struct.pack(">Q", len(encoded))`, which is in range for a text that fits in memory: the length
-- is taken as it is.
unfoldable pub write_string : Option Text → Written
write_string none = ok (0 ∷ [])
write_string (some value) = do
  encoded ← encode value
  if ltb (length encoded) (2 ^ 64)
      then ok (1 ∷ (big_endian 8 (length encoded) ++ encoded))
      else err int_range

unfoldable pub write_blobloc : BlobLoc → Written
write_blobloc loc =
    write_string (some loc.blob_identifier)
    += write_bool loc.is_packed
    += write_bool loc.is_large_pack
    += write_string (some loc.relative_path)
    += write_uint64 loc.offset
    += write_uint64 loc.length
    += write_bool loc.stretch_encryption_key
    += write_uint32 loc.compression_type
    += write_nothing

unfoldable pub write_bloblocs : List BlobLoc → Written
write_bloblocs [] = write_nothing
write_bloblocs (loc ∷ locs) = write_blobloc loc += write_bloblocs locs

-- `out += write_bool(loc is not None)`, then the loc.
unfoldable pub write_optional_blobloc : Option BlobLoc → Written
write_optional_blobloc none = write_bool false += write_nothing
write_optional_blobloc (some loc) = write_bool true += write_blobloc loc

-- `out += write_uint64(len(locs))`, then each loc.
unfoldable pub write_counted_bloblocs : List BlobLoc → Written
write_counted_bloblocs locs = write_uint64 (length locs) += write_bloblocs locs

abbrev pub tree_version_default : ℕ
tree_version_default = 3

abbrev pub tree_version_v4 : ℕ
tree_version_v4 = 4

abbrev pub reparse_min_version : ℕ
reparse_min_version = 2

abbrev pub v4_block_bytes : ℕ
v4_block_bytes = 38

unfoldable pub is_zero : ℤ → Bool
is_zero (pos zero) = true
is_zero (pos (suc n)) = false
is_zero (negsuc n) = false

-- The synthesised block: seconds, nanoseconds, the present flag, 14 reserved bytes.
unfoldable pub scanned_block : ℤ → ℤ → Written
scanned_block sec nsec =
    write_int64 sec += write_int64 nsec += write_int64 (pos 0x0100_0000) += ok (replicate 14 0)

unfoldable pub v4_trailing_block_of : NodeFields → Written
v4_trailing_block_of node =
    if length node.v4_trailing_block == v4_block_bytes
    then ok node.v4_trailing_block
    else if is_zero node.v4_scanned_at_sec && is_zero node.v4_scanned_at_nsec
    then scanned_block node.create_time_sec node.create_time_nsec
    else scanned_block node.v4_scanned_at_sec node.v4_scanned_at_nsec

unfoldable pub write_reparse : ℕ → NodeFields → Written
write_reparse tree_version node =
    if leb reparse_min_version tree_version
    then (write_uint32 node.win_reparse_tag
        += write_bool node.win_reparse_point_is_directory
        += write_nothing)
    else write_nothing

unfoldable pub write_v4_block : ℕ → NodeFields → Written
write_v4_block tree_version node =
    if leb tree_version_v4 tree_version then v4_trailing_block_of node else write_nothing

-- Everything behind the data locations.
unfoldable pub write_fields : ℕ → NodeFields → Written
write_fields tree_version node =
    write_optional_blobloc node.acl_blob_loc
    += write_counted_bloblocs node.xattrs_blob_locs
    += write_uint64 node.item_size
    += write_uint64 node.contained_files_count
    += write_int64 node.mtime_sec
    += write_int64 node.mtime_nsec
    += write_int64 node.ctime_sec
    += write_int64 node.ctime_nsec
    += write_int64 node.create_time_sec
    += write_int64 node.create_time_nsec
    += write_string node.username
    += write_string node.group_name
    += write_bool node.deleted
    += write_int32 node.mac_st_dev
    += write_uint64 node.mac_st_ino
    += write_uint32 node.mac_st_mode
    += write_uint32 node.mac_st_nlink
    += write_uint32 node.mac_st_uid
    += write_uint32 node.mac_st_gid
    += write_int32 node.mac_st_rdev
    += write_int32 node.mac_st_flags
    += write_uint32 node.win_attrs
    += write_reparse tree_version node
    += write_v4_block tree_version node
    += write_nothing

unfoldable pub write_node : ℕ → Node → Written
write_node tree_version (file_node data_locs node) =
    write_bool false
    += write_uint32 node.computer_os_type
    += write_counted_bloblocs data_locs
    += write_fields tree_version node
    += write_nothing
write_node tree_version (tree_node tree_blob_loc node) =
    write_bool true
    += write_blobloc tree_blob_loc
    += write_uint32 node.computer_os_type
    += write_counted_bloblocs []
    += write_fields tree_version node
    += write_nothing

unfoldable pub write_child : ℕ → TreeChild → Written
write_child version child = write_string (some child.name) += write_node version child.node

unfoldable pub write_children : ℕ → List TreeChild → Written
write_children version [] = write_nothing
write_children version (child ∷ children) =
    write_child version child += write_children version children

unfoldable pub write_tree : ℕ → Tree → Written
write_tree version tree =
    write_uint32 version
    += write_uint64 (length tree.children)
    += write_children version tree.children
    += write_nothing
