-- ===== src/Wire/RoundTrip/Fields.antt =====
-- The round trip of locations and of the fields of a node.
use arq_backup_tui.Common.{
  ℕ, ◌^◌, ◌≡◌, refl, sym, ap, length-append, true, false, Option, none, some, List, [], ◌∷◌, All,
  length, arith, leb, Bool-cases, inl, inr,
}
use arq_backup_tui.Common.Int.{ℤ}
use arq_backup_tui.Common.Result.{ok, err}
use arq_backup_tui.Wire.Bytes.{length-big_endian, to_word}
use arq_backup_tui.Wire.Types.{BlobLoc, NodeFields}
use arq_backup_tui.Wire.Serialize.{
  Written, write_blobloc, write_bloblocs, write_optional_blobloc, write_counted_bloblocs,
  write_reparse, write_v4_block, write_fields, reparse_min_version, tree_version_v4, v4_block_bytes,
  v4_trailing_block_of, scanned_block, write_int64, fits_signed,
}
use arq_backup_tui.Wire.Reader.{read_raw}
use arq_backup_tui.Wire.Parse.{
  or_empty, parse_many, parse_blobloc, parse_when, parse_optional_blobloc, parse_counted_bloblocs,
  parse_reparse, parse_v4_block, parse_fields,
}
use arq_backup_tui.Wire.RoundTrip.Rules.{
  Roundtrips, Roundtrips-pure, Roundtrips-bind, Roundtrips-map, Roundtrips-raw, Roundtrips-err,
  append_inv, ok_injective, Roundtrips-bool, Roundtrips-uint32, Roundtrips-uint64, Roundtrips-int32,
  Roundtrips-int64, Roundtrips-string,
}
use arq_backup_tui.Wire.RoundTrip.Stored.{
  BlobLocInRange, OptionInRange, LocsInRange, FieldsInRange, stored_reparse, stored_block,
  stored_fields, written_or_empty,
}

pub Roundtrips-blobloc :
    (loc : BlobLoc) → BlobLocInRange loc → Roundtrips parse_blobloc (write_blobloc loc) loc
unfolding parse_blobloc write_blobloc or_empty
Roundtrips-blobloc loc r = Roundtrips-bind _ (Roundtrips-string (some loc.blob_identifier)) (
    Roundtrips-bind _ (Roundtrips-bool loc.is_packed) (
      Roundtrips-bind _ (Roundtrips-bool loc.is_large_pack) (
        Roundtrips-bind _ (Roundtrips-string (some loc.relative_path)) (
          Roundtrips-bind _ (Roundtrips-uint64 loc.offset r.offset) (
            Roundtrips-bind _ (Roundtrips-uint64 loc.length r.length) (
              Roundtrips-bind _ (Roundtrips-bool loc.stretch_encryption_key) (
                Roundtrips-bind _ (Roundtrips-uint32 loc.compression_type r.compression_type)
                  (Roundtrips-pure loc))))))))

Roundtrips-bloblocs :
    (locs : List BlobLoc)
    → All BlobLocInRange locs
    → Roundtrips (parse_many parse_blobloc (length locs)) (write_bloblocs locs) locs
unfolding parse_many write_bloblocs
Roundtrips-bloblocs [] r = Roundtrips-pure []
Roundtrips-bloblocs (loc ∷ locs) (r, rs) =
    Roundtrips-bind _ (Roundtrips-blobloc loc r)
      (Roundtrips-map (λ xs. loc ∷ xs) (Roundtrips-bloblocs locs rs))

pub Roundtrips-counted_bloblocs :
    (locs : List BlobLoc)
    → LocsInRange locs
    → Roundtrips parse_counted_bloblocs (write_counted_bloblocs locs) locs
unfolding parse_counted_bloblocs write_counted_bloblocs
Roundtrips-counted_bloblocs locs (short, rs) =
    Roundtrips-bind _ (Roundtrips-uint64 (length locs) short) (Roundtrips-bloblocs locs rs)

Roundtrips-optional_blobloc :
    (o : Option BlobLoc)
    → OptionInRange o
    → Roundtrips parse_optional_blobloc (write_optional_blobloc o) o
unfolding parse_optional_blobloc write_optional_blobloc parse_when
Roundtrips-optional_blobloc none r =
    Roundtrips-bind _ (Roundtrips-bool false) (Roundtrips-pure none)
Roundtrips-optional_blobloc (some loc) r =
    Roundtrips-bind _ (Roundtrips-bool true) (Roundtrips-map some (Roundtrips-blobloc loc r))

Roundtrips-reparse :
    (version : ℕ) (f : NodeFields)
    → FieldsInRange f
    → Roundtrips (parse_reparse version) (write_reparse version f) (stored_reparse version f)
unfolding parse_reparse write_reparse stored_reparse
Roundtrips-reparse version f r = elim (Bool-cases (leb reparse_min_version version)) [
  | inl has ↦ rw has (
      Roundtrips-bind _ (Roundtrips-uint32 f.win_reparse_tag r.win_reparse_tag)
        (Roundtrips-bind _ (Roundtrips-bool f.win_reparse_point_is_directory) (Roundtrips-pure _)))
  | inr lacks ↦ rw lacks (Roundtrips-pure _)
]

length-int64 : (z : ℤ) (bs : List ℕ) → write_int64 z ≡ ok bs → length bs ≡ 8
unfolding write_int64
length-int64 z bs h = elim (Bool-cases (fits_signed (2 ^ 64) z)) [
  | inl fits ↦ rw (← ok_injective (rw fits at h)) (length-big_endian 8 (to_word (2 ^ 64) z))
  | inr out ↦ cc (rw out at h)
]

length-scanned_block :
    (sec nsec : ℤ) (bs : List ℕ) → scanned_block sec nsec ≡ ok bs → length bs ≡ v4_block_bytes
unfolding scanned_block
length-scanned_block sec nsec bs h =
    let (a, more, ea, e, j) = append_inv _ _ bs h in
    let (b, more', eb, e', j') = append_inv _ _ more e in
    let (c, zeros, ec, ez, j'') = append_inv _ _ more' e' in
    omega (
      arith,
      length-int64 sec a ea,
      length-int64 nsec b eb,
      length-int64 _ c ec,
      ap length j,
      ap length j',
      ap length j'',
      ap length (ok_injective ez),
      length-append a more,
      length-append b more',
      length-append c zeros,
    )

-- However it is made, the block has 38 bytes.
pub length-v4_trailing_block_of :
    (f : NodeFields) (bs : List ℕ) → v4_trailing_block_of f ≡ ok bs → length bs ≡ v4_block_bytes
unfolding v4_trailing_block_of
length-v4_trailing_block_of f bs h = ground (
  arith,
  length-scanned_block f.create_time_sec f.create_time_nsec bs,
  length-scanned_block f.v4_scanned_at_sec f.v4_scanned_at_nsec bs,
)

raw_written :
    (n : ℕ) (w r : Written)
    → w ≡ r
    → ((bs : List ℕ) → w ≡ ok bs → length bs ≡ n)
    → Roundtrips (read_raw n) w (written_or_empty w)
raw_written n w (ok bs) e h = rw e (Roundtrips-raw n bs (sym (h bs e)))
raw_written n w (err x) e h = rw e (Roundtrips-err _ _ _)

Roundtrips-v4_block :
    (version : ℕ) (f : NodeFields)
    → Roundtrips (parse_v4_block version) (write_v4_block version f) (stored_block version f)
unfolding parse_v4_block write_v4_block stored_block
Roundtrips-v4_block version f = elim (Bool-cases (leb tree_version_v4 version)) [
  | inl has ↦
      rw has
        (raw_written v4_block_bytes (v4_trailing_block_of f) _ refl (length-v4_trailing_block_of f))
  | inr lacks ↦ rw lacks (Roundtrips-pure [])
]

pub Roundtrips-fields :
    (version : ℕ) (f : NodeFields)
    → FieldsInRange f
    → Roundtrips
        (parse_fields version f.computer_os_type)
        (write_fields version f)
        (stored_fields version f)
unfolding parse_fields write_fields stored_fields
Roundtrips-fields version f r =
    Roundtrips-bind _ (Roundtrips-optional_blobloc f.acl_blob_loc r.acl_blob_loc) (
      Roundtrips-bind _ (Roundtrips-counted_bloblocs f.xattrs_blob_locs r.xattrs_blob_locs) (
        Roundtrips-bind _ (Roundtrips-uint64 f.item_size r.item_size) (
          Roundtrips-bind _ (Roundtrips-uint64 f.contained_files_count r.contained_files_count) (
            Roundtrips-bind _ (Roundtrips-int64 f.mtime_sec) (
              Roundtrips-bind _ (Roundtrips-int64 f.mtime_nsec) (
                Roundtrips-bind _ (Roundtrips-int64 f.ctime_sec) (
                  Roundtrips-bind _ (Roundtrips-int64 f.ctime_nsec) (
                    Roundtrips-bind _ (Roundtrips-int64 f.create_time_sec) (
                      Roundtrips-bind _ (Roundtrips-int64 f.create_time_nsec) (
                        Roundtrips-bind _ (Roundtrips-string f.username) (
                          Roundtrips-bind _ (Roundtrips-string f.group_name) (
                            Roundtrips-bind _ (Roundtrips-bool f.deleted) (
                              Roundtrips-bind _ (Roundtrips-int32 f.mac_st_dev) (
                                Roundtrips-bind _ (Roundtrips-uint64 f.mac_st_ino r.mac_st_ino) (
                                  Roundtrips-bind _ (Roundtrips-uint32 f.mac_st_mode r.mac_st_mode)
                                    (Roundtrips-bind _
                                      (Roundtrips-uint32 f.mac_st_nlink r.mac_st_nlink)
                                      (Roundtrips-bind _
                                        (Roundtrips-uint32 f.mac_st_uid r.mac_st_uid)
                                        (Roundtrips-bind _
                                          (Roundtrips-uint32 f.mac_st_gid r.mac_st_gid)
                                          (Roundtrips-bind _ (Roundtrips-int32 f.mac_st_rdev) (
                                            Roundtrips-bind _ (Roundtrips-int32 f.mac_st_flags) (
                                              Roundtrips-bind _
                                                (Roundtrips-uint32 f.win_attrs r.win_attrs)
                                                (Roundtrips-bind _ (Roundtrips-reparse version f r)
                                                  (Roundtrips-bind _ (Roundtrips-v4_block version f)
                                                    (Roundtrips-pure _))))))))))))))))))))))))
