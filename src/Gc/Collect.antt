-- ===== src/Gc/Collect.antt =====
-- `_collect_referenced_blobs` and `_collect_live_pack_paths`: the walk from every record of a computer.
use arq_backup_tui.Common.{ℕ, false, Option, none, some, List, [], ◌∷◌, length, ◌==◌, if◌then◌else◌}
use arq_backup_tui.Common.Result.{Result, ok, err, ◌>>=◌}
use arq_backup_tui.Wire.Types.{Text}
use arq_backup_tui.Crypto.Primitives.{Primitives}
use arq_backup_tui.Crypto.Keyset.{Keyset}
use arq_backup_tui.Crypto.Object.{decrypt_lz4_arqo}
use arq_backup_tui.Pack.Builder.{codes}
use arq_backup_tui.Backend.{Backend}
use arq_backup_tui.Record.Values.{
  Value, text, list, dict, Values, nil, cons, Fields, get_field, Python, truth,
}
use arq_backup_tui.Record.Parse.{parse_backuprecord}
use arq_backup_tui.Layout.Paths.{backupfolders_dir, join, computer_root}
use arq_backup_tui.Layout.Records.{list_backuprecords}
use arq_backup_tui.Gc.Walk.{
  Failure, raised, or_raise, caught, Walked, find, walk_tree_collect, walk_tree_collect_pack_paths,
}

-- The items of `value or ()`. Any other value that is true has items that are no dicts, or none to
-- iterate over: the loop raises.
unfoldable pub items_of : Python → Value → Result Failure Values
items_of py (list values) = ok values
items_of py value = if truth py value then err raised else ok nil

unfoldable pub fields_of : Value → Result Failure Fields
fields_of (dict fields) = ok fields
fields_of other = err raised

-- `_add_blob` and `_add_pack_path`: what they add to the set.
unfoldable pub add_blob : Python → Fields → List Text
add_blob py d = elim (get_field d (codes "blobIdentifier")) [
  | text id ↦ if length id == 64 then py.lower id ∷ [] else []
  | other ↦ []
]

unfoldable pub add_pack_path : Python → Fields → List Text
add_pack_path py d =
    if truth py (get_field d (codes "isPacked"))
    then (elim (get_field d (codes "relativePath")) [
      | text [] ↦ []
      | text (c ∷ cs) ↦ (c ∷ cs) ∷ []
      | other ↦ []
    ])
    else []

-- The loop over one of the lists of a node.
unfoldable pub add_items : (Fields → List Text) → Values → Walked → Result Failure Walked
add_items add nil w = ok w
add_items add (cons item items) w = fields_of item >>= λ d. add_items add items (find (add d) w)

-- `add` is `_add_blob` or `_add_pack_path`, and `walk` the walk that goes with it.
module _ (add : Fields → List Text) (walk : Fields → Walked → Result Failure Walked) where
  unfoldable pub collect_tree : Value → Walked → Result Failure Walked
  collect_tree (dict tloc) w = walk tloc (find (add tloc) w)
  collect_tree other w = ok w

  unfoldable pub collect_node : Python → Value → Walked → Result Failure Walked
  collect_node py (dict node) w =
      items_of py (get_field node (codes "dataBlobLocs")) >>= λ data_locs.
      add_items add data_locs w >>= λ w1.
      items_of py (get_field node (codes "xattrsBlobLocs")) >>= λ xattrs_locs.
      add_items add xattrs_locs w1 >>= λ w2. collect_tree (get_field node (codes "treeBlobLoc")) w2
  collect_node py other w = ok w

  unfoldable pub collect_parsed : Python → Option Fields → Walked → Result Failure Walked
  collect_parsed py none w = ok w
  collect_parsed py (some rec) w = collect_node py (get_field rec (codes "node")) w

module _ {State : Type 0} (b : Backend State) (p : Primitives) (py : Python) (keyset : Keyset) where
  -- The record at a path; `none` where it cannot be read, decrypted or parsed.
  unfoldable pub record_at : State → Text → Option Fields
  record_at s path = elim (b.read_all s path) [
    | none ↦ none
    | some arqo ↦
        elim (caught (decrypt_lz4_arqo p arqo keyset.encryption_key keyset.hmac_key false)) [
          | none ↦ none
          | some plain ↦ parse_backuprecord py plain
        ]
  ]

  module _ (add : Fields → List Text) (walk : Fields → Walked → Result Failure Walked) where
    unfoldable pub collect_record : State → Text → Walked → Result Failure Walked
    collect_record s path w = collect_parsed add walk py (record_at s path) w

    unfoldable pub collect_records : State → List Text → Walked → Result Failure Walked
    collect_records s [] w = ok w
    collect_records s (path ∷ paths) w = collect_record s path w >>= collect_records s paths

    unfoldable pub collect_folders :
        State → Text → Text → List Text → Walked → Result Failure Walked
    collect_folders s root cu [] w = ok w
    collect_folders s root cu (fu ∷ folders) w =
        or_raise (list_backuprecords b py s root cu fu) >>= λ paths.
        collect_records s paths w >>= collect_folders s root cu folders

    unfoldable pub collect : State → Text → Text → Result Failure (List Text)
    collect s root cu =
        let bf_root = join (computer_root root cu) backupfolders_dir in
        if b.is_dir s bf_root
        then (or_raise (b.list_dir s bf_root) >>= λ folders.
            collect_folders s root cu folders (record { seen = []; found = [] }) >>= λ w.
            ok w.found)
        else ok []

  unfoldable pub collect_referenced_blobs : State → ℕ → Text → Text → Result Failure (List Text)
  collect_referenced_blobs s fuel = collect (add_blob py) (walk_tree_collect b p py keyset s fuel) s

  unfoldable pub collect_live_pack_paths : State → ℕ → Text → Text → Result Failure (List Text)
  collect_live_pack_paths s fuel =
      collect (add_pack_path py) (walk_tree_collect_pack_paths b p py keyset s fuel) s
