-- ===== src/Gc/SampleReads.antt =====
-- What the code reads of the sample destination: its records, its keyset, its tree.
use arq_backup_tui.Common.{
  ◌≡◌, refl, sym, ap, ◌∙◌, subst, false, Option, some, List, [], ◌∷◌, append-nil, inl, inr, Has,
  eq-or-Has_of_Has-cons, not_Has-nil, list_eq,
}
use arq_backup_tui.Common.Int.{int_le, pos}
use arq_backup_tui.Common.Result.{ok}
use arq_backup_tui.Common.Sort.{sorted, insert_sorted, pair_le, text_le}
use arq_backup_tui.Wire.Types.{Text}
use arq_backup_tui.Wire.Bytes.{from_big_endian, big_endian}
use arq_backup_tui.Wire.Utf8.{encode, encode_char}
use arq_backup_tui.Wire.Parse.{parse_tree}
use arq_backup_tui.Wire.RoundTrip.Stored.{stored_tree}
use arq_backup_tui.Lz4.Decompress.{
  lz4_unwrap, lz4_block_decompress, decompress_loop, read_sequence, read_match, read_length,
  check_size,
}
use arq_backup_tui.Crypto.Primitives.{aes_256_cbc_decrypt}
use arq_backup_tui.Crypto.Object.{
  decrypt_encrypted_object, decrypt_body, decrypt_payload, verify_encrypted_object_hmac,
  decrypt_lz4_arqo,
}
use arq_backup_tui.Crypto.Keyset.{
  decrypt_keyset, derive_keyset_keys, parse_keyset_storage, parse_keyset_plaintext,
  verify_keyset_hmac, keyset_plaintext,
}
use arq_backup_tui.Crypto.Toy.{toy, keyset, old_password}
use arq_backup_tui.Pack.Dict.{get}
use arq_backup_tui.Pack.Builder.{codes}
use arq_backup_tui.Record.Values.{Fields, get_field, truth, text_or_empty, int_or, to_int, dict}
use arq_backup_tui.Record.Parse.{parse_backuprecord, parse_json_record, as_dict}
use arq_backup_tui.Layout.Paths.{join, rstrip_slash, computer_root, keyset_path, backupfolders_dir}
use arq_backup_tui.Layout.Records.{
  ends_with, stem_of, key_le, is_outer, outer_dirs, ranked, records_base, keyed, keyed_onto,
  all_ranked, list_backuprecords,
}
use arq_backup_tui.Record.Values.{null}
use arq_backup_tui.Common.{inr}
use arq_backup_tui.Gc.Live.{stated_loc, stated_compression, IsCompressed}
use arq_backup_tui.Gc.Walk.{
  TreeLoc, caught, raw_at, open_object, unwrap, fetch_tree, loc_of_dict, bid_of_dict,
}
use arq_backup_tui.Gc.Collect.{record_at}
use arq_backup_tui.Gc.Sweep.{open_keyset}
use arq_backup_tui.Gc.Disk.{disk_backend}
use arq_backup_tui.Gc.SamplePlaces.{root, tree_place}
use arq_backup_tui.Gc.Live.{IsRecord, HasNode, place_of_dict}
use arq_backup_tui.Gc.Sample.{
  cu, tree, tree_id, tree_bytes, tree_bytes-take, tree_parsed, tree_path, record_path, tree_dict,
  node_dict, record_dict, python, sample,
}

pub sample_records :
    list_backuprecords disk_backend python sample root cu cu ≡ some (record_path ∷ [])
unfolding list_backuprecords all_ranked keyed_onto keyed records_base ranked outer_dirs is_outer
    key_le pair_le text_le int_le stem_of ends_with list_eq sorted insert_sorted computer_root join
    rstrip_slash get
sample_records = refl

pub sample_record : record_at disk_backend toy python keyset sample record_path ≡ some record_dict
unfolding record_at caught decrypt_lz4_arqo decrypt_encrypted_object decrypt_body decrypt_payload
    verify_encrypted_object_hmac aes_256_cbc_decrypt lz4_unwrap lz4_block_decompress decompress_loop
    read_sequence read_match read_length check_size from_big_endian parse_backuprecord
    parse_json_record as_dict list_eq get
sample_record = refl

pub sample_keyset : open_keyset disk_backend toy root old_password sample cu ≡ some keyset
unfolding open_keyset caught decrypt_keyset derive_keyset_keys parse_keyset_storage
    parse_keyset_plaintext verify_keyset_hmac keyset_plaintext big_endian encode encode_char
    from_big_endian aes_256_cbc_decrypt keyset_path computer_root join rstrip_slash list_eq get
sample_keyset = refl

-- The sample's one record.
pub folders_listed :
    disk_backend.list_dir sample (join (computer_root root cu) backupfolders_dir) ≡ some (cu ∷ [])
unfolding join computer_root rstrip_slash get list_eq
folders_listed = refl

one_eq {ℓ} :
    {A : Type ℓ}
    → (xs : List A) (y : A) (r : Option (List A)) → r ≡ some xs
    → r ≡ some (y ∷ [])
    → xs ≡ y ∷ []
one_eq xs y r e f = cc

one_of : (texts : List Text) (t u : Text) → Has texts t → texts ≡ u ∷ [] → t ≡ u
one_of texts t u h e = elim (eq-or-Has_of_Has-cons t u [] (subst (λ ts. Has ts t) e h)) [
  | inl same ↦ same
  | inr other ↦ absurd (not_Has-nil t other)
]

only_path : (path : Text) → IsRecord disk_backend python root cu sample path → path ≡ record_path
only_path path r =
    let its_folder : r.folder ≡ cu = one_of r.folders r.folder cu r.in_folders (
      one_eq r.folders cu
        (disk_backend.list_dir sample (join (computer_root root cu) backupfolders_dir))
        r.lists_folders folders_listed) in
    let its_paths : r.paths ≡ record_path ∷ [] =
      one_eq r.paths record_path (list_backuprecords disk_backend python sample root cu cu)
        (subst (λ f. list_backuprecords disk_backend python sample root cu f ≡ some r.paths)
          its_folder r.lists_records)
        sample_records in
    one_of r.paths path record_path r.in_paths its_paths

pub dict_eq : (d e : Fields) → dict d ≡ dict e → d ≡ e
dict_eq d e same = cc

some_fields : (d e : Fields) → some d ≡ some e → d ≡ e
some_fields d e same = cc

pub its_node : get_field record_dict (codes "node") ≡ dict node_dict
unfolding get_field list_eq
its_node = refl

pub only_node :
    (path : Text) (node : Fields)
    → HasNode disk_backend toy python keyset root cu sample path node
    → node ≡ node_dict
only_node path node h =
    let at : path ≡ record_path = only_path path h.is_record in
    let parsed : record_at disk_backend toy python keyset sample record_path ≡ some h.fields =
      subst (λ q. record_at disk_backend toy python keyset sample q ≡ some h.fields) at h.parsed in
    let its_fields : h.fields ≡ record_dict =
      some_fields h.fields record_dict (sym parsed ∙ sample_record) in
    dict_eq node node_dict
      (sym h.has_node ∙ (ap (λ f. get_field f (codes "node")) its_fields ∙ its_node))

-- The location of its tree, and the tree there.
abbrev pub tree_loc : TreeLoc
tree_loc = record {
  bid = tree_id;
  rel = tree_path;
  is_packed = false;
  offset = pos 0;
  size = pos 0;
  compression = pos 1;
}

pub stated_loc_eq : stated_loc python tree_dict ≡ some tree_loc
unfolding stated_loc stated_compression get_field list_eq truth text_or_empty int_or to_int
stated_loc_eq = refl

pub tree_dict-IsCompressed : IsCompressed python tree_dict
unfolding get_field list_eq truth
tree_dict-IsCompressed = inr refl

pub no_acl_eq : get_field node_dict (codes "aclBlobLoc") ≡ null
unfolding get_field list_eq
no_acl_eq = refl

pub tree_loc_eq : loc_of_dict python tree_dict ≡ some tree_loc
unfolding loc_of_dict bid_of_dict get_field list_eq truth text_or_empty int_or to_int
tree_loc_eq = refl

pub tree_place_eq : place_of_dict python tree_dict ≡ some tree_place
unfolding place_of_dict get_field list_eq truth
tree_place_eq = refl

pub tree_dict_eq : get_field node_dict (codes "treeBlobLoc") ≡ dict tree_dict
unfolding get_field list_eq
tree_dict_eq = refl

raw_tree : raw_at disk_backend sample tree_loc ≡ some tree_bytes
unfolding raw_at get list_eq
raw_tree = refl

plain_parsed : parse_tree tree_bytes ≡ ok (stored_tree 3 tree)
plain_parsed =
    subst (λ bs. parse_tree bs ≡ ok (stored_tree 3 tree)) (append-nil tree_bytes) tree_parsed

pub tree_fetched : fetch_tree disk_backend toy keyset sample tree_loc ≡ some (stored_tree 3 tree)
unfolding fetch_tree open_object unwrap caught int_le
tree_fetched = rw (raw_tree, fetch_tree, tree_bytes-take, plain_parsed) refl
