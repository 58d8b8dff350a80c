-- ===== src/Gc/Sample.antt =====
-- A destination with one computer, one record, its tree, a pack with the data of a file, and an orphan.
use arq_backup_tui.Common.{
  arith, ℕ, ◌+◌, ◌*◌, ◌-◌, ◌≡◌, refl, Bool, true, false, ◌&&◌, Option, none, some, List, [], ◌∷◌,
  ◌++◌, leb, list_eq, take, replicate, if◌then◌else◌,
}
use arq_backup_tui.Common.Int.{pos}
use arq_backup_tui.Common.Result.{ok, err}
use arq_backup_tui.Wire.Types.{Text, BlobLoc, NodeFields, file_node, Tree}
use arq_backup_tui.Wire.Serialize.{
  Written, write_tree, write_children, write_child, write_node, write_fields, write_v4_block,
  write_reparse, write_counted_bloblocs, write_optional_blobloc, write_bloblocs, write_blobloc,
  write_string, write_int64, write_int32, write_uint64, write_uint32, write_bool, write_nothing,
  ◌+=◌, v4_trailing_block_of, scanned_block, is_zero, fits_signed,
}
use arq_backup_tui.Wire.Bytes.{big_endian, to_word}
use arq_backup_tui.Wire.Utf8.{encode, encode_char}
use arq_backup_tui.Wire.RoundTrip.Stored.{TreeInRange, stored_tree}
use arq_backup_tui.Wire.RoundTrip.Tree.{parse_tree-write_tree}
use arq_backup_tui.Wire.Parse.{parse_tree}
use arq_backup_tui.Crypto.Object.{arqo_magic}
use arq_backup_tui.Crypto.Toy.{old_file}
use arq_backup_tui.Pack.Builder.{codes}
use arq_backup_tui.Record.Values.{
  Value, bool, int, text, dict, Fields, nil_field, cons_field, Python,
}
use arq_backup_tui.Gc.Disk.{Disk}

abbrev pub cu : Text
cu = codes "AAAAAAAA-AAAA-AAAA-AAAA-AAAAAAAAAAAA"

abbrev pub base : Text
base = codes "/AAAAAAAA-AAAA-AAAA-AAAA-AAAAAAAAAAAA"

abbrev pub object_rest : Text
object_rest = replicate 62 b'a'

abbrev pub tree_id : Text
tree_id = codes "aa" ++ object_rest

abbrev pub tree_path : Text
tree_path = base ++ (codes "/standardobjects/aa/" ++ object_rest)

abbrev pub orphan_path : Text
orphan_path = base ++ (codes "/standardobjects/aa/" ++ replicate 62 b'c')

abbrev pub pack_path : Text
pack_path = base ++ codes "/blobpacks/bb/P.pack"

abbrev pub folders_path : Text
folders_path = base ++ codes "/backupfolders"

abbrev pub records_path : Text
records_path = folders_path ++ (codes "/" ++ (cu ++ codes "/backuprecords"))

abbrev pub outer_path : Text
outer_path = records_path ++ codes "/00000"

abbrev pub record_path : Text
record_path = outer_path ++ codes "/1.backuprecord"

-- The location of the file's data, and the tree with the file.
abbrev pub blob : BlobLoc
blob = record {
  blob_identifier = codes "bb";
  is_packed = true;
  is_large_pack = false;
  relative_path = pack_path;
  offset = 0;
  length = 3;
  stretch_encryption_key = true;
  compression_type = 2;
}

abbrev pub fields : NodeFields
fields = record {
  item_size = 3;
  contained_files_count = 1;
  mtime_sec = pos 1_700_000_000;
  mtime_nsec = pos 0;
  ctime_sec = pos 0;
  ctime_nsec = pos 0;
  create_time_sec = pos 1_600_000_000;
  create_time_nsec = pos 0;
  username = none;
  group_name = none;
  deleted = false;
  mac_st_dev = pos 0;
  mac_st_ino = 12;
  mac_st_mode = 33188;
  mac_st_nlink = 1;
  mac_st_uid = 501;
  mac_st_gid = 20;
  mac_st_rdev = pos 0;
  mac_st_flags = pos 0;
  win_attrs = 0;
  win_reparse_tag = 0;
  win_reparse_point_is_directory = false;
  computer_os_type = 1;
  acl_blob_loc = none;
  xattrs_blob_locs = [];
  v4_trailing_block = [];
  v4_scanned_at_sec = pos 0;
  v4_scanned_at_nsec = pos 0;
}

abbrev pub tree : Tree
tree = record {
  children = record { name = b'f' ∷ []; node = file_node (blob ∷ []) fields } ∷ [];
  version = 0;
}

abbrev bytes_or_empty : Written → List ℕ
bytes_or_empty (ok bs) = bs
bytes_or_empty (err e) = []

unfoldable pub tree_bytes : List ℕ
tree_bytes = bytes_or_empty (write_tree 3 tree)

written : write_tree 3 tree ≡ ok tree_bytes
unfolding tree_bytes write_tree write_children write_child write_node write_fields write_v4_block
    write_reparse write_counted_bloblocs write_optional_blobloc write_bloblocs write_blobloc
    write_string write_int64 write_int32 write_uint64 write_uint32 write_bool write_nothing ◌+=◌
    v4_trailing_block_of scanned_block is_zero fits_signed big_endian to_word encode encode_char
written = refl

-- No magic of an encrypted object at the start.
pub tree_bytes-take : list_eq (take 4 tree_bytes) arqo_magic ≡ false
unfolding tree_bytes write_tree write_children write_child write_node write_fields write_v4_block
    write_reparse write_counted_bloblocs write_optional_blobloc write_bloblocs write_blobloc
    write_string write_int64 write_int32 write_uint64 write_uint32 write_bool write_nothing ◌+=◌
    v4_trailing_block_of scanned_block is_zero fits_signed big_endian to_word encode encode_char
    list_eq
tree_bytes-take = refl

in_range : TreeInRange tree
in_range = omega arith

pub tree_parsed : parse_tree (tree_bytes ++ []) ≡ ok (stored_tree 3 tree)
tree_parsed = parse_tree-write_tree 3 tree tree_bytes [] (omega arith) in_range written

-- The record: what json.loads gives of the one byte of its text.
abbrev pub tree_dict : Fields
tree_dict = cons_field (codes "blobIdentifier") (text tree_id) (
    cons_field (codes "isPacked") (bool false) (
      cons_field (codes "relativePath") (text tree_path) (
        cons_field (codes "offset") (int (pos 0))
          (cons_field (codes "compressionType") (int (pos 1)) nil_field))))

abbrev pub node_dict : Fields
node_dict =
    cons_field (codes "isTree") (bool true)
      (cons_field (codes "treeBlobLoc") (dict tree_dict) nil_field)

abbrev pub record_dict : Fields
record_dict =
    cons_field (codes "creationDate") (int (pos 1_709_249_400))
      (cons_field (codes "node") (dict node_dict) nil_field)

abbrev json_sample : List ℕ → Option Value
json_sample bytes = if list_eq bytes (1 ∷ []) then some (dict record_dict) else none

abbrev all_digits : Text → Bool
all_digits [] = true
all_digits (c ∷ cs) = leb 0x30 c && leb c 0x39 && all_digits cs

abbrev decimal : ℕ → Text → ℕ
decimal n [] = n
decimal n (c ∷ cs) = decimal (n * 10 + (c - 0x30)) cs

abbrev pub python : Python
python = record {
  plist_loads = λ bytes. some none;
  json_loads = json_sample;
  str_of = λ v. [];
  int_of = λ v. none;
  int_of_text = λ t. if all_digits t then some (pos (decimal 0 t)) else none;
  lower = λ t. t;
  isdigit = all_digits;
  truth_of = λ n. true;
  overflows = λ n. false;
}

-- The text of the record, wrapped and encrypted.
abbrev pub record_file : List ℕ
record_file =
    arqo_magic
    ++ (replicate 32 96
        ++ (replicate 16 9
            ++ ((replicate 16 16 ++ (replicate 16 8 ++ replicate 32 7))
                ++ (replicate 10 10 ++ 0 ∷ 0 ∷ 0 ∷ 1 ∷ 0x10 ∷ 1 ∷ []))))

abbrev pub sample : Disk
sample = record {
  files =
      (base ++ codes "/encryptedkeyset.dat", old_file)
      ∷ (record_path, record_file)
      ∷ (tree_path, tree_bytes)
      ∷ (pack_path, 1 ∷ 2 ∷ 3 ∷ [])
      ∷ (orphan_path, 9 ∷ [])
      ∷ [];
  listing =
      (codes "/", cu ∷ [])
      ∷ (folders_path, cu ∷ [])
      ∷ (records_path, codes "00000" ∷ [])
      ∷ (outer_path, codes "1.backuprecord" ∷ [])
      ∷ (base ++ codes "/standardobjects", codes "aa" ∷ [])
      ∷ (base ++ codes "/standardobjects/aa", object_rest ∷ replicate 62 b'c' ∷ [])
      ∷ (base ++ codes "/blobpacks", codes "bb" ∷ [])
      ∷ (base ++ codes "/blobpacks/bb", codes "P.pack" ∷ [])
      ∷ [];
}
