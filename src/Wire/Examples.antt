-- ===== src/Wire/Examples.antt =====
-- The theorems on arq_writer/serialize.py and arq_reader/parse.py at a tree with a file and a directory.
use arq_backup_tui.Common.{
  ℕ, ◌≡◌, refl, true, false, none, some, List, [], ◌∷◌, ◌++◌, arith, take, drop, get_or,
}
use arq_backup_tui.Common.Int.{pos, negsuc}
use arq_backup_tui.Common.Result.{ok, err}
use arq_backup_tui.Wire.Errors.{unexpected_eof}
use arq_backup_tui.Wire.Bytes.{big_endian, to_word}
use arq_backup_tui.Wire.Utf8.{encode, encode_char, decode_replace, decode-encode}
use arq_backup_tui.Wire.Types.{BlobLoc, NodeFields, file_node, tree_node, Tree}
use arq_backup_tui.Wire.Serialize.{
  Written, ◌+=◌, write_nothing, write_bool, write_uint32, write_uint64, write_int32, write_int64,
  write_string, write_blobloc, write_bloblocs, write_optional_blobloc, write_counted_bloblocs,
  write_reparse, write_v4_block, write_fields, write_node, write_child, write_children, write_tree,
  v4_trailing_block_of, scanned_block, is_zero, fits_signed,
}
use arq_backup_tui.Wire.Parse.{parse_tree}
use arq_backup_tui.Wire.RoundTrip.Stored.{TreeInRange, stored_tree}
use arq_backup_tui.Wire.RoundTrip.Tree.{parse_tree-write_tree}
use arq_backup_tui.Wire.RoundTrip.Rewrite.{rewrite_identical}
use arq_backup_tui.Wire.Truncated.{parse_tree_truncated}

abbrev blob : BlobLoc
blob = record {
  blob_identifier = b'a' ∷ b'b' ∷ [];
  is_packed = true;
  is_large_pack = false;
  relative_path = b'/' ∷ b'p' ∷ [];
  offset = 70000;
  length = 300;
  stretch_encryption_key = true;
  compression_type = 2;
}

abbrev fields : NodeFields
fields = record {
  item_size = 5;
  contained_files_count = 1;
  mtime_sec = pos 1_700_000_000;
  mtime_nsec = pos 7;
  ctime_sec = negsuc 0;
  ctime_nsec = pos 0;
  create_time_sec = pos 1_600_000_000;
  create_time_nsec = pos 9;
  username = some (0xe9 ∷ 0x20ac ∷ 0x1_f600 ∷ []);
  group_name = none;
  deleted = false;
  mac_st_dev = negsuc 4;
  mac_st_ino = 12;
  mac_st_mode = 33188;
  mac_st_nlink = 1;
  mac_st_uid = 501;
  mac_st_gid = 20;
  mac_st_rdev = pos 0;
  mac_st_flags = pos 0;
  win_attrs = 0;
  win_reparse_tag = 3;
  win_reparse_point_is_directory = true;
  computer_os_type = 1;
  acl_blob_loc = some blob;
  xattrs_blob_locs = blob ∷ [];
  v4_trailing_block = [];
  v4_scanned_at_sec = pos 0;
  v4_scanned_at_nsec = pos 0;
}

abbrev tree : Tree
tree = record {
  children =
      record { name = b'f' ∷ []; node = file_node (blob ∷ blob ∷ []) fields }
      ∷ record { name = b'd' ∷ []; node = tree_node blob fields }
      ∷ [];
  version = 0;
}

abbrev bytes_or_empty : Written → List ℕ
bytes_or_empty (ok bs) = bs
bytes_or_empty (err e) = []

bytes : List ℕ
bytes = bytes_or_empty (write_tree 4 tree)

written : write_tree 4 tree ≡ ok bytes
unfolding bytes write_tree write_children write_child write_node write_fields write_v4_block
    write_reparse write_counted_bloblocs write_optional_blobloc write_bloblocs write_blobloc
    write_string write_int64 write_int32 write_uint64 write_uint32 write_bool write_nothing ◌+=◌
    v4_trailing_block_of scanned_block is_zero fits_signed big_endian to_word encode encode_char
written = refl

split : write_tree 4 tree ≡ ok (take 200 bytes ++ get_or bytes 200 0 ∷ drop 201 bytes)
unfolding bytes write_tree write_children write_child write_node write_fields write_v4_block
    write_reparse write_counted_bloblocs write_optional_blobloc write_bloblocs write_blobloc
    write_string write_int64 write_int32 write_uint64 write_uint32 write_bool write_nothing ◌+=◌
    v4_trailing_block_of scanned_block is_zero fits_signed big_endian to_word encode encode_char
split = refl

in_range : TreeInRange tree
in_range = omega arith

parse_tree-write_tree_example : parse_tree (bytes ++ 1 ∷ 2 ∷ []) ≡ ok (stored_tree 4 tree)
parse_tree-write_tree_example =
    parse_tree-write_tree 4 tree bytes (1 ∷ 2 ∷ []) (omega arith) in_range written

rewrite_identical_example :
    (t' : Tree) × (parse_tree bytes ≡ ok t') × (write_tree t'.version t' ≡ ok bytes)
rewrite_identical_example = rewrite_identical 4 tree bytes (omega arith) in_range written

parse_tree_truncated_example : parse_tree (take 200 bytes) ≡ err unexpected_eof
parse_tree_truncated_example =
    parse_tree_truncated 4 tree (take 200 bytes) (get_or bytes 200 0) (drop 201 bytes) (omega arith)
      in_range split

accented :
    encode (0xe9 ∷ 0x20ac ∷ 0x1_f600 ∷ [])
    ≡ ok (0xc3 ∷ 0xa9 ∷ 0xe2 ∷ 0x82 ∷ 0xac ∷ 0xf0 ∷ 0x9f ∷ 0x98 ∷ 0x80 ∷ [])
unfolding encode encode_char
accented = refl

decode-encode_example :
    decode_replace (0xc3 ∷ 0xa9 ∷ 0xe2 ∷ 0x82 ∷ 0xac ∷ 0xf0 ∷ 0x9f ∷ 0x98 ∷ 0x80 ∷ [])
    ≡ 0xe9 ∷ 0x20ac ∷ 0x1_f600 ∷ []
decode-encode_example = decode-encode (0xe9 ∷ 0x20ac ∷ 0x1_f600 ∷ []) _ accented

-- Each maximal part of a broken sequence gives one replacement character, as in CPython.
broken :
    decode_replace (0xe2 ∷ 0x82 ∷ 0x41 ∷ 0xe0 ∷ 0x80 ∷ 0xf0 ∷ 0x9f ∷ [])
    ≡ 0xfffd ∷ 0x41 ∷ 0xfffd ∷ 0xfffd ∷ 0xfffd ∷ []
unfolding decode_replace
broken = refl
