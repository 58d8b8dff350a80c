-- ===== src/Gc/Live.antt =====
-- What a computer's records need: the trees below them, and the blobs that they and their trees name.
-- This is the specification of the collection, by rules; no walk is in it. A record or a tree that cannot
-- be read, decrypted and parsed names nothing.
use arq_backup_tui.Common.{
  ◌≡◌, Bool, true, Option, none, some, List, [], ◌∷◌, length, ◌==◌, if◌then◌else◌, ◌⊎◌, inl, inr,
  Has,
}
use arq_backup_tui.Common.Int.{ℤ, pos}
use arq_backup_tui.Wire.Types.{Text, BlobLoc, Node, file_node, tree_node, TreeChild, Tree}
use arq_backup_tui.Crypto.Primitives.{Primitives}
use arq_backup_tui.Crypto.Keyset.{Keyset}
use arq_backup_tui.Pack.Builder.{codes}
use arq_backup_tui.Backend.{Backend}
use arq_backup_tui.Record.Values.{
  Value, text, list, dict, Values, nil, cons, Fields, get_field, Python, truth, null, text_or_empty,
  to_int, int_or,
}
use arq_backup_tui.Layout.Paths.{backupfolders_dir, join, computer_root}
use arq_backup_tui.Layout.Records.{list_backuprecords}
use arq_backup_tui.Gc.Walk.{TreeLoc, node_tree, fetch_tree, loc_of_blobloc}
use arq_backup_tui.Gc.Collect.{record_at}

-- A blob by its identifier and its place.
pub record Place : Type 0 where
  pub id : Text
  pub is_packed : Bool
  pub path : Text

abbrev pub AnyChild : (Node → Type 0) → List TreeChild → Type 0
AnyChild Q [] = ⊥
AnyChild Q (child ∷ children) = Q child.node ⊎ AnyChild Q children

abbrev pub AnyLoc : (BlobLoc → Type 0) → List BlobLoc → Type 0
AnyLoc Q [] = ⊥
AnyLoc Q (loc ∷ locs) = Q loc ⊎ AnyLoc Q locs

abbrev pub AnyDict : (Fields → Type 0) → Values → Type 0
AnyDict Q nil = ⊥
AnyDict Q (cons (dict d) vs) = Q d ⊎ AnyDict Q vs
AnyDict Q (cons other vs) = AnyDict Q vs

abbrev pub InItems : (Fields → Type 0) → Value → Type 0
InItems Q (list vs) = AnyDict Q vs
InItems Q other = ⊥

abbrev pub OnSome : (BlobLoc → Type 0) → Option BlobLoc → Type 0
OnSome Q none = ⊥
OnSome Q (some loc) = Q loc

-- All that a node names: its data or its tree, its extended attributes, its ACL.
abbrev pub Names : (BlobLoc → Type 0) → Node → Type 0
Names Q (file_node locs f) = AnyLoc Q locs ⊎ (AnyLoc Q f.xattrs_blob_locs ⊎ OnSome Q f.acl_blob_loc)
Names Q (tree_node loc f) = Q loc ⊎ (AnyLoc Q f.xattrs_blob_locs ⊎ OnSome Q f.acl_blob_loc)

module _ (py : Python) where
  unfoldable pub place_of : BlobLoc → Place
  place_of loc = record {
    id = py.lower loc.blob_identifier;
    is_packed = loc.is_packed;
    path = loc.relative_path;
  }

  -- The place that a dict gives: an identifier of 64 characters, and a path.
  unfoldable pub place_of_dict : Fields → Option Place
  place_of_dict d = elim (get_field d (codes "blobIdentifier")) [
    | text id ↦ elim (get_field d (codes "relativePath")) [
      | text [] ↦ none
      | text (c ∷ cs) ↦
          if length id == 64
          then some record {
            id = py.lower id;
            is_packed = truth py (get_field d (codes "isPacked"));
            path = c ∷ cs;
          }
          else none
      | other ↦ none
    ]
    | other ↦ none
  ]

  -- The compression type of a location as it is stated: LZ4 where none is, and 0 is no compression.
  unfoldable pub stated_compression : Value → Option ℤ
  stated_compression null = some (pos 2)
  stated_compression value = to_int py value

  -- The location of a tree as a dict states it.
  unfoldable pub stated_loc : Fields → Option TreeLoc
  stated_loc d = elim (int_or py (get_field d (codes "offset")) 0) [
    | none ↦ none
    | some offset ↦ elim (int_or py (get_field d (codes "length")) 0) [
      | none ↦ none
      | some size ↦ elim (stated_compression (get_field d (codes "compressionType"))) [
        | none ↦ none
        | some compression ↦ some record {
          bid = py.lower (text_or_empty py (get_field d (codes "blobIdentifier")));
          rel = text_or_empty py (get_field d (codes "relativePath"));
          is_packed = truth py (get_field d (codes "isPacked"));
          offset = offset;
          size = size;
          compression = compression;
        }
      ]
    ]
  ]

  -- The dict states no compression type, or one that is not 0.
  abbrev pub IsCompressed : Fields → Type 0
  IsCompressed d =
      (get_field d (codes "compressionType") ≡ null)
      ⊎ (truth py (get_field d (codes "compressionType")) ≡ true)

module _ {State : Type 0} (b : Backend State) (py : Python) (root cu : Text) (s : State) where
  -- The path of a record of the computer.
  pub record IsRecord (path : Text) : Type 0 where
    pub folders : List Text
    pub folder : Text
    pub paths : List Text
    pub has_folders : b.is_dir s (join (computer_root root cu) backupfolders_dir) ≡ true
    pub lists_folders : b.list_dir s (join (computer_root root cu) backupfolders_dir) ≡ some folders
    pub in_folders : Has folders folder
    pub lists_records : list_backuprecords b py s root cu folder ≡ some paths
    pub in_paths : Has paths path

module _ {State : Type 0} (b : Backend State) (p : Primitives) (py : Python) (keyset : Keyset)
    (root cu : Text) (s : State) where
  -- The node that a record describes.
  pub record HasNode (path : Text) (node : Fields) : Type 0 where
    pub is_record : IsRecord b py root cu s path
    pub fields : Fields
    pub parsed : record_at b p py keyset s path ≡ some fields
    pub has_node : get_field fields (codes "node") ≡ dict node

  -- The trees below the records.
  pub data Live : TreeLoc → Type 0 where
    top :
        {loc : TreeLoc} (path : Text) (node d : Fields)
        → HasNode path node
        → get_field node (codes "treeBlobLoc") ≡ dict d
        → stated_loc py d ≡ some loc
        → Live loc
    below :
        {loc : TreeLoc} (parent : TreeLoc) (tree : Tree)
        → Live parent
        → fetch_tree b p keyset s parent ≡ some tree
        → AnyChild
            (λ n. (sub : BlobLoc) × (node_tree n ≡ some sub) × (loc ≡ loc_of_blobloc py sub))
            tree.children
        → Live loc

  -- The blobs that the records and the trees below them name, less the ACLs of the records' own nodes.
  pub data Gathered : Place → Type 0 where
    by_data :
        {place : Place} (path : Text) (node : Fields)
        → HasNode path node
        → InItems (λ d. place_of_dict py d ≡ some place) (get_field node (codes "dataBlobLocs"))
        → Gathered place
    by_xattrs :
        {place : Place} (path : Text) (node : Fields)
        → HasNode path node
        → InItems (λ d. place_of_dict py d ≡ some place) (get_field node (codes "xattrsBlobLocs"))
        → Gathered place
    by_record :
        {place : Place} (path : Text) (node d : Fields)
        → HasNode path node
        → get_field node (codes "treeBlobLoc") ≡ dict d
        → place_of_dict py d ≡ some place
        → Gathered place
    by_tree :
        {place : Place} (parent : TreeLoc) (tree : Tree)
        → Live parent
        → fetch_tree b p keyset s parent ≡ some tree
        → AnyChild (Names (λ loc. place ≡ place_of py loc)) tree.children
        → Gathered place

  -- The ACL of a record's own node.
  pub record RootAcl (place : Place) : Type 0 where
    pub path : Text
    pub node : Fields
    pub acl : Fields
    pub has_node : HasNode path node
    pub has_acl : get_field node (codes "aclBlobLoc") ≡ dict acl
    pub has_place : place_of_dict py acl ≡ some place

  -- All blobs that the records and the trees below them name.
  abbrev pub Named : Place → Type 0
  Named place = Gathered place ⊎ RootAcl place

  pub Gathered-Named : (place : Place) → Named place → (RootAcl place → ⊥) → Gathered place
  Gathered-Named place (inl gathered) h = gathered
  Gathered-Named place (inr acl) h = absurd (h acl)

  -- Every record's tree has a place, and its compression type is not 0.
  abbrev pub HasPlaces : Type 0
  HasPlaces =
      (path : Text) (node d : Fields)
      → HasNode path node
      → get_field node (codes "treeBlobLoc") ≡ dict d
      → (place : Place) × (place_of_dict py d ≡ some place) × IsCompressed py d

  -- Content addressing: two of the trees under one identifier are one tree.
  abbrev pub IsContentAddressed : Type 0
  IsContentAddressed =
      (l m : TreeLoc)
      → Live l
      → Live m
      → l.bid ≡ m.bid
      → fetch_tree b p keyset s l ≡ fetch_tree b p keyset s m
