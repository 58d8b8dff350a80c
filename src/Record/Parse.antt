-- ===== src/Record/Parse.antt =====
-- `parse_backuprecord` and `blobloc_to_dict`.
use arq_backup_tui.Common.{ℕ, Option, none, some, List}
use arq_backup_tui.Common.Int.{pos}
use arq_backup_tui.Wire.Types.{BlobLoc}
use arq_backup_tui.Pack.Builder.{codes}
use arq_backup_tui.Record.Values.{
  Value, bool, int, text, dict, Fields, nil_field, cons_field, Python,
}

-- A record that is a dict.
unfoldable pub as_dict : Value → Option Fields
as_dict (dict fields) = some fields
as_dict other = none

-- The part of `parse_backuprecord` for JSON.
unfoldable pub parse_json_record : Python → List ℕ → Option Fields
parse_json_record py plain = elim (py.json_loads plain) [ none ↦ none | some value ↦ as_dict value ]

-- `none` where it raises: on a plist that ends in another error than InvalidFileException, too.
unfoldable pub parse_backuprecord : Python → List ℕ → Option Fields
parse_backuprecord py plain = elim (py.plist_loads plain) [
  | none ↦ none
  | some none ↦ parse_json_record py plain
  | some (some (dict fields)) ↦ some fields
  | some (some other) ↦ parse_json_record py plain
]

unfoldable pub blobloc_to_dict : BlobLoc → Fields
blobloc_to_dict loc = cons_field (codes "blobIdentifier") (text loc.blob_identifier) (
    cons_field (codes "isPacked") (bool loc.is_packed) (
      cons_field (codes "isLargePack") (bool loc.is_large_pack) (
        cons_field (codes "relativePath") (text loc.relative_path) (
          cons_field (codes "offset") (int (pos loc.offset)) (
            cons_field (codes "length") (int (pos loc.length)) (
              cons_field (codes "stretchEncryptionKey") (bool loc.stretch_encryption_key) (
                cons_field (codes "compressionType") (int (pos loc.compression_type))
                  (nil_field))))))))
