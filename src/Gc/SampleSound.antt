-- ===== src/Gc/SampleSound.antt =====
-- The sample destination meets the hypotheses of the theorems on `gc_orphan_blobs`.
use arq_backup_tui.Common.{
  ◌≡◌, refl, sym, ap, ◌∙◌, subst, Option, none, some, [], ◌∷◌, ◌⊎◌, inl, inr, Has-cons_self,
  list_eq,
}
use arq_backup_tui.Wire.Types.{Text, Tree, BlobLoc}
use arq_backup_tui.Wire.RoundTrip.Stored.{stored_tree, stored_children, stored_node, stored_fields}
use arq_backup_tui.Crypto.Toy.{toy, keyset}
use arq_backup_tui.Pack.Dict.{get}
use arq_backup_tui.Pack.Builder.{codes}
use arq_backup_tui.Record.Values.{Fields, get_field, dict}
use arq_backup_tui.Layout.Paths.{join, rstrip_slash, computer_root}
use arq_backup_tui.Record.Values.{null}
use arq_backup_tui.Gc.Walk.{TreeLoc, loc_of_blobloc, node_tree, fetch_tree}
use arq_backup_tui.Gc.Disk.{disk_backend, Differs, NoEntry}
use arq_backup_tui.Gc.Spare.{IsSound, IsPlaced}
use arq_backup_tui.Gc.SamplePlaces.{
  root, cu-IsComputer, sample-IsSeparate, tree_place, data_place, tree_place-IsPlaced,
  data_place-IsPlaced,
}
use arq_backup_tui.Gc.Live.{
  AnyChild, Names, Place, top, below, by_data, by_xattrs, by_record, by_tree, InItems, place_of,
  IsRecord, HasNode, Live, Gathered, Named, RootAcl, stated_loc, IsCompressed, place_of_dict,
  HasPlaces, IsContentAddressed,
}
use arq_backup_tui.Gc.Sample.{
  cu, blob, tree, record_path, tree_dict, node_dict, record_dict, python, sample,
}
use arq_backup_tui.Gc.SampleReads.{
  sample_records, sample_record, folders_listed, dict_eq, its_node, only_node, tree_loc,
  stated_loc_eq, tree_dict-IsCompressed, no_acl_eq, tree_place_eq, tree_dict_eq, tree_fetched,
}

abbrev pub stored : Tree
stored = stored_tree 3 tree

tree_unique : (t : Tree) → fetch_tree disk_backend toy keyset sample tree_loc ≡ some t → t ≡ stored
tree_unique t e = some_same (sym e ∙ tree_fetched)
  where
    some_same : some t ≡ some stored → t ≡ stored
    some_same same = cc

no_subtree :
    (Q : BlobLoc → Type 0)
    → AnyChild (λ n. (sub : BlobLoc) × (node_tree n ≡ some sub) × Q sub) stored.children
    → ⊥
unfolding stored_tree stored_children stored_node node_tree
no_subtree Q (inl (sub, e, q)) = impossible e
  where
    impossible : ◌≡◌ {A = Option BlobLoc} none (some sub) → ⊥
    impossible e = cc
no_subtree Q (inr h) = h

some_loc : (l m : TreeLoc) → some l ≡ some m → l ≡ m
some_loc l m e = cc

some_place : (l m : Place) → some l ≡ some m → l ≡ m
some_place l m e = cc

only_dict :
    (path : Text) (node d : Fields)
    → HasNode disk_backend toy python keyset root cu sample path node
    → get_field node (codes "treeBlobLoc") ≡ dict d
    → d ≡ tree_dict
only_dict path node d h its_dict = dict_eq d tree_dict (
    sym its_dict
    ∙ (ap (λ n. get_field n (codes "treeBlobLoc")) (only_node path node h) ∙ tree_dict_eq))

pub only_tree : {l : TreeLoc} → Live disk_backend toy python keyset root cu sample l → l ≡ tree_loc
only_tree {l} (top path node d h its_dict its_loc) =
    some_loc l tree_loc
      (sym its_loc ∙ (ap (stated_loc python) (only_dict path node d h its_dict) ∙ stated_loc_eq))
only_tree {l} (below parent t live fetched h) =
    let the_parent : parent ≡ tree_loc = only_tree live in
    let the_tree : t ≡ stored =
      tree_unique t
        (subst (λ l. fetch_tree disk_backend toy keyset sample l ≡ some t) the_parent fetched) in
    absurd (
      no_subtree (λ sub. l ≡ loc_of_blobloc python sub)
        (subst
          (λ u.
            AnyChild
              (λ n. (sub : BlobLoc) × (node_tree n ≡ some sub) × (l ≡ loc_of_blobloc python sub))
              u.children)
          the_tree h))

abbrev NothingUnder : Text → Type 1
NothingUnder key = (Q : Fields → Type 0) → InItems Q (get_field node_dict key) → ⊥

no_data : NothingUnder (codes "dataBlobLocs")
unfolding get_field list_eq
no_data Q h = h

no_xattrs : NothingUnder (codes "xattrsBlobLocs")
unfolding get_field list_eq
no_xattrs Q h = h

data_place_eq : place_of python blob ≡ data_place
unfolding place_of
data_place_eq = refl

in_stored :
    (place : Place)
    → AnyChild (Names (λ loc. place ≡ place_of python loc)) stored.children
    → place ≡ data_place
unfolding stored_tree stored_children stored_node stored_fields
in_stored place (inl (inl (inl e))) = e ∙ data_place_eq
in_stored place (inl (inl (inr h))) = absurd h
in_stored place (inl (inr (inl h))) = absurd h
in_stored place (inl (inr (inr h))) = absurd h
in_stored place (inr h) = absurd h

only_places :
    {place : Place}
    → Gathered disk_backend toy python keyset root cu sample place
    → (place ≡ tree_place) ⊎ (place ≡ data_place)
only_places {place} (by_data path node h item) = absurd (
    no_data (λ d. place_of_dict python d ≡ some place)
      (subst
        (λ n.
          InItems (λ d. place_of_dict python d ≡ some place) (get_field n (codes "dataBlobLocs")))
        (only_node path node h) item))
only_places {place} (by_xattrs path node h item) = absurd (
    no_xattrs (λ d. place_of_dict python d ≡ some place)
      (subst
        (λ n.
          InItems (λ d. place_of_dict python d ≡ some place) (get_field n (codes "xattrsBlobLocs")))
        (only_node path node h) item))
only_places {place} (by_record path node d h its_dict its_place) = inl (
    some_place place tree_place (
      sym its_place
      ∙ (ap (place_of_dict python) (only_dict path node d h its_dict) ∙ tree_place_eq)))
only_places {place} (by_tree parent t live fetched h) =
    let the_parent : parent ≡ tree_loc = only_tree live in
    let the_tree : t ≡ stored =
      tree_unique t
        (subst (λ l. fetch_tree disk_backend toy keyset sample l ≡ some t) the_parent fetched) in
    inr (
      in_stored place
        (subst (λ u. AnyChild (Names (λ loc. place ≡ place_of python loc)) u.children) the_tree h))

pub sample-HasPlaces : HasPlaces disk_backend toy python keyset root cu sample
sample-HasPlaces path node d h its_dict = (
  tree_place,
  ap (place_of_dict python) (only_dict path node d h its_dict) ∙ tree_place_eq,
  subst (IsCompressed python) (sym (only_dict path node d h its_dict)) tree_dict-IsCompressed,
)

pub sample-IsContentAddressed : IsContentAddressed disk_backend toy python keyset root cu sample
sample-IsContentAddressed l m live live' same =
    ap (fetch_tree disk_backend toy keyset sample) (only_tree live ∙ sym (only_tree live'))

pub sample-IsSound : IsSound disk_backend toy python Differs NoEntry root cu keyset sample
sample-IsSound = record {
  is_computer = cu-IsComputer;
  separate = sample-IsSeparate;
  places = sample-HasPlaces;
  addressed = sample-IsContentAddressed;
  placed = λ place named. elim (only_places named) [
    | inl e ↦ subst (IsPlaced Differs NoEntry python.lower root cu) (sym e) tree_place-IsPlaced
    | inr e ↦ subst (IsPlaced Differs NoEntry python.lower root cu) (sym e) data_place-IsPlaced
  ];
}

-- The data of the file is named, by the tree of the record.
record_path-IsRecord : IsRecord disk_backend python root cu sample record_path
unfolding get list_eq join computer_root rstrip_slash
record_path-IsRecord = record {
  folders = cu ∷ [];
  folder = cu;
  paths = record_path ∷ [];
  has_folders = refl;
  lists_folders = folders_listed;
  in_folders = Has-cons_self cu [];
  lists_records = sample_records;
  in_paths = Has-cons_self record_path [];
}

record_path-HasNode : HasNode disk_backend toy python keyset root cu sample record_path node_dict
record_path-HasNode = record {
  is_record = record_path-IsRecord;
  fields = record_dict;
  parsed = sample_record;
  has_node = its_node;
}

tree_loc-Live : Live disk_backend toy python keyset root cu sample tree_loc
tree_loc-Live = top record_path node_dict tree_dict record_path-HasNode tree_dict_eq stated_loc_eq

pub data_place-Gathered : Gathered disk_backend toy python keyset root cu sample data_place
unfolding stored_tree stored_children stored_node stored_fields
data_place-Gathered =
    by_tree tree_loc stored tree_loc-Live tree_fetched (inl (inl (inl (sym data_place_eq))))

pub data_place-Named : Named disk_backend toy python keyset root cu sample data_place
data_place-Named = inl data_place-Gathered

null_dict : (d : Fields) → null ≡ dict d → ⊥
null_dict d e = cc

-- The record's node has no ACL.
pub sample-not_RootAcl :
    (place : Place) → RootAcl disk_backend toy python keyset root cu sample place → ⊥
sample-not_RootAcl place r = null_dict r.acl (
    sym no_acl_eq
    ∙ (ap (λ n. get_field n (codes "aclBlobLoc")) (sym (only_node r.path r.node r.has_node))
        ∙ r.has_acl))
