-- ===== src/Gc/Walk.antt =====
-- `_walk_tree_collect`, `_walk_tree_collect_blobloc` and `_walk_tree_collect_pack_paths`: the walk over
-- the trees of a record, which visits each blob identifier once.
use arq_backup_tui.Common.{
  ℕ, zero, suc, Bool, true, false, Option, none, some, List, [], ◌∷◌, ◌++◌, take, list_eq,
  if◌then◌else◌, mem_text,
}
use arq_backup_tui.Common.Int.{ℤ, pos, int_le}
use arq_backup_tui.Common.Result.{Result, ok, err}
use arq_backup_tui.Wire.Types.{
  Text, BlobLoc, NodeFields, Node, file_node, tree_node, TreeChild, Tree,
}
use arq_backup_tui.Wire.Parse.{parse_tree}
use arq_backup_tui.Lz4.Decompress.{lz4_unwrap}
use arq_backup_tui.Crypto.Primitives.{Primitives}
use arq_backup_tui.Crypto.Keyset.{Keyset}
use arq_backup_tui.Crypto.Object.{arqo_magic, decrypt_encrypted_object}
use arq_backup_tui.Pack.Builder.{codes}
use arq_backup_tui.Backend.{Backend}
use arq_backup_tui.Record.Values.{Python, Fields, get_field, truth, text_or_empty, int_or}

-- What a walk reads of the location of a tree, whether a `BlobLoc` or a dict gives it.
pub record TreeLoc : Type 0 where
  pub bid : Text
  pub rel : Text
  pub is_packed : Bool
  pub offset : ℤ
  pub size : ℤ
  pub compression : ℤ

-- A call that raises; a walk that is out of fuel.
pub data Failure : Type 0 where
  raised stuck : Failure

unfoldable pub or_raise {ℓ} : {A : Type ℓ} → Option A → Result Failure A
or_raise none = err raised
or_raise (some a) = ok a

unfoldable pub or_stuck {ℓ} : {A : Type ℓ} → Option A → Result Failure A
or_stuck none = err stuck
or_stuck (some a) = ok a

-- The value of a call under a `try` whose handler gives up.
unfoldable pub caught {ℓ κ} : {E : Type ℓ} {A : Type κ} → Result E A → Option A
caught (ok a) = some a
caught (err e) = none

-- The locations that a node names, less that of its tree: `getattr` with a default.
unfoldable pub node_data : Node → List BlobLoc
node_data (file_node locs f) = locs
node_data (tree_node loc f) = []

unfoldable pub node_fields : Node → NodeFields
node_fields (file_node locs f) = f
node_fields (tree_node loc f) = f

unfoldable pub node_tree : Node → Option BlobLoc
node_tree (file_node locs f) = none
node_tree (tree_node loc f) = some loc

abbrev pub of_option : Option BlobLoc → List BlobLoc
of_option none = []
of_option (some loc) = loc ∷ []

unfoldable pub node_locs : Node → List BlobLoc
node_locs node =
    node_data node
    ++ ((node_fields node).xattrs_blob_locs ++ of_option (node_fields node).acl_blob_loc)

-- The two sets that a walk fills.
pub record Walked : Type 0 where
  pub seen : List Text
  pub found : List Text

unfoldable pub gather : (BlobLoc → List Text) → List BlobLoc → List Text
gather leaf [] = []
gather leaf (loc ∷ locs) = leaf loc ++ gather leaf locs

unfoldable pub find : List Text → Walked → Walked
find texts w = record { seen = w.seen; found = w.found ++ texts }

unfoldable pub mark : List Text → TreeLoc → Walked → Walked
mark entered loc w = record { seen = loc.bid ∷ w.seen; found = w.found ++ entered }

-- The loop over the children of a tree. `leaf` is what the walk collects of a location, `before` what it
-- collects of a subtree's before it visits it.
module _ (leaf before : BlobLoc → List Text) (visit : BlobLoc → Walked → Option Walked) where
  unfoldable pub walk_child : Node → Walked → Option Walked
  walk_child node w =
      let w' = find (gather leaf (node_locs node)) w in
      elim (node_tree node) [ none ↦ some w' | some loc ↦ visit loc (find (before loc) w') ]

  unfoldable pub walk_children : List TreeChild → Walked → Option Walked
  walk_children [] w = some w
  walk_children (child ∷ children) w = elim (walk_child child.node w) [
    | none ↦ none
    | some w' ↦ walk_children children w'
  ]

-- What the two kinds of walk collect: `enter` of a tree that is visited for the first time.
pub record Collector : Type 0 where
  pub leaf : BlobLoc → List Text
  pub before : BlobLoc → List Text
  pub enter : TreeLoc → List Text

-- The walk on fuel for its depth, `none` where that runs out. `fetch` is the tree at a location.
module _ (fetch : TreeLoc → Option Tree) (loc_of : BlobLoc → TreeLoc) where
  -- From the `try` on.
  unfoldable pub expand :
      (BlobLoc → List Text)
      → (BlobLoc → List Text)
      → (BlobLoc → Walked → Option Walked)
      → TreeLoc
      → Walked
      → Option Walked
  expand leaf before visit loc w = elim (fetch loc) [
    | none ↦ some w
    | some tree ↦ walk_children leaf before visit tree.children w
  ]

  unfoldable pub walk : Collector → ℕ → TreeLoc → Walked → Option Walked
  walk c zero loc w = none
  walk c (suc fuel) loc w = elim (mem_text loc.bid w.seen) [
    | true ↦ some w
    | false ↦
        expand c.leaf c.before (λ sub. walk c fuel (loc_of sub)) loc (mark (c.enter loc) loc w)
  ]

module _ {State : Type 0} (b : Backend State) where
  -- `read_range` of a packed blob, `read_all` of another.
  unfoldable pub raw_at : State → TreeLoc → Option (List ℕ)
  raw_at s loc =
      if loc.is_packed then b.read_range s loc.rel loc.offset loc.size else b.read_all s loc.rel

unfoldable pub open_object : Primitives → Keyset → List ℕ → Option (List ℕ)
open_object p keyset raw =
    if list_eq (take 4 raw) arqo_magic
    then caught (decrypt_encrypted_object p raw keyset.encryption_key keyset.hmac_key false)
    else some raw

abbrev is_two : ℤ → Bool
is_two z = if int_le z (pos 2) then int_le (pos 2) z else false

unfoldable pub unwrap : ℤ → List ℕ → Option (List ℕ)
unwrap compression raw = if is_two compression then caught (lz4_unwrap raw) else some raw

module _ {State : Type 0} (b : Backend State) (p : Primitives) (keyset : Keyset) where
  -- The body of the `try`.
  unfoldable pub fetch_tree : State → TreeLoc → Option Tree
  fetch_tree s loc = elim (raw_at b s loc) [
    | none ↦ none
    | some raw ↦ elim (open_object p keyset raw) [
      | none ↦ none
      | some opened ↦ elim (unwrap loc.compression opened) [
        | none ↦ none
        | some plain ↦ caught (parse_tree plain)
      ]
    ]
  ]

module _ (py : Python) where
  unfoldable pub loc_of_blobloc : BlobLoc → TreeLoc
  loc_of_blobloc loc = record {
    bid = py.lower loc.blob_identifier;
    rel = loc.relative_path;
    is_packed = loc.is_packed;
    offset = pos loc.offset;
    size = pos loc.length;
    compression = pos loc.compression_type;
  }

  unfoldable pub bid_of_dict : Fields → Text
  bid_of_dict d = py.lower (text_or_empty py (get_field d (codes "blobIdentifier")))

  -- `none` where `int` raises.
  unfoldable pub loc_of_dict : Fields → Option TreeLoc
  loc_of_dict d = elim (int_or py (get_field d (codes "offset")) 0) [
    | none ↦ none
    | some offset ↦ elim (int_or py (get_field d (codes "length")) 0) [
      | none ↦ none
      | some size ↦ elim (int_or py (get_field d (codes "compressionType")) 2) [
        | none ↦ none
        | some compression ↦ some record {
          bid = bid_of_dict d;
          rel = text_or_empty py (get_field d (codes "relativePath"));
          is_packed = truth py (get_field d (codes "isPacked"));
          offset = offset;
          size = size;
          compression = compression;
        }
      ]
    ]
  ]

  unfoldable pub id_of : BlobLoc → List Text
  id_of loc = py.lower loc.blob_identifier ∷ []

  unfoldable pub ids : Collector
  ids = record { leaf = id_of; before = λ loc. []; enter = λ loc. loc.bid ∷ [] }

unfoldable pub pack_path_of : BlobLoc → List Text
pack_path_of loc = if loc.is_packed then loc.relative_path ∷ [] else []

unfoldable pub pack_paths : Collector
pack_paths = record { leaf = pack_path_of; before = pack_path_of; enter = λ loc. [] }

module _ {State : Type 0} (b : Backend State) (p : Primitives) (py : Python) (keyset : Keyset) where
  unfoldable pub walk_tree_collect_blobloc : State → ℕ → BlobLoc → Walked → Option Walked
  walk_tree_collect_blobloc s fuel loc =
      walk (fetch_tree b p keyset s) (loc_of_blobloc py) (ids py) fuel (loc_of_blobloc py loc)

  -- The conversions by `int` come after the test whether the tree was seen.
  unfoldable pub walk_tree_collect : State → ℕ → Fields → Walked → Result Failure Walked
  walk_tree_collect s fuel d w = elim (mem_text (bid_of_dict py d) w.seen) [
    | true ↦ ok w
    | false ↦ elim (loc_of_dict py d) [
      | none ↦ err raised
      | some loc ↦ or_stuck (
          expand (fetch_tree b p keyset s) (loc_of_blobloc py) (id_of py) (id_of py)
            (walk_tree_collect_blobloc s fuel) loc (mark [] loc w))
    ]
  ]

  unfoldable pub walk_tree_collect_pack_paths : State → ℕ → Fields → Walked → Result Failure Walked
  walk_tree_collect_pack_paths s fuel d w = elim (loc_of_dict py d) [
    | none ↦ err raised
    | some loc ↦ or_stuck (walk (fetch_tree b p keyset s) (loc_of_blobloc py) pack_paths fuel loc w)
  ]
