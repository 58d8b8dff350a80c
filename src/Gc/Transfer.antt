-- ===== src/Gc/Transfer.antt =====
-- Two states that agree on the folders of a computer's records, and on the trees below them, have the
-- same records, trees and named blobs.
use arq_backup_tui.Common.{◌≡◌, refl, sym, ap, ◌∙◌, subst, some, List, [], ◌∷◌, inl, inr}
use arq_backup_tui.Wire.Types.{Text, BlobLoc, Node, file_node, tree_node, TreeChild}
use arq_backup_tui.Crypto.Primitives.{Primitives}
use arq_backup_tui.Crypto.Keyset.{Keyset}
use arq_backup_tui.Backend.{Backend}
use arq_backup_tui.Record.Values.{Fields, Python}
use arq_backup_tui.Layout.Paths.{backupfolders_dir, join, computer_root}
use arq_backup_tui.Layout.Discover.{or_empty_list}
use arq_backup_tui.Layout.Records.{outer_dirs, records_base, all_ranked, list_backuprecords}
use arq_backup_tui.Gc.Walk.{TreeLoc, node_tree, loc_of_blobloc, raw_at, fetch_tree}
use arq_backup_tui.Gc.Collect.{record_at}
use arq_backup_tui.Gc.Live.{
  Place, AnyChild, Names, place_of, IsRecord, HasNode, Live, top, below, Gathered, by_data,
  by_xattrs, by_record, by_tree, HasPlaces, IsContentAddressed,
}
use arq_backup_tui.Gc.Places.{stated_loc-FromDict, place_of_dict-HasPlace}
use arq_backup_tui.Gc.Same.{
  InFolders, InFolders-join, InFolders-root, InFolders-base, IsRecord-InFolders,
}

named_tree :
    (Q : BlobLoc → Type 0) (n : Node) (sub : BlobLoc) → node_tree n ≡ some sub → Q sub → Names Q n
unfolding node_tree
named_tree Q (file_node locs f) sub e h = cc
named_tree Q (tree_node loc f) sub e h = let same : sub ≡ loc = cc in inl (subst Q same h)

-- The location of a subtree is one of those that its parent names.
subtree_loc :
    (py : Python) (loc : TreeLoc) (children : List TreeChild)
    → AnyChild
        (λ n. (sub : BlobLoc) × (node_tree n ≡ some sub) × (loc ≡ loc_of_blobloc py sub))
        children
    → (sub : BlobLoc) × ((place_of py sub).path ≡ loc.rel)
      × AnyChild (Names (λ l. place_of py sub ≡ place_of py l)) children
unfolding place_of loc_of_blobloc
subtree_loc py loc [] any = elim any [ ]
subtree_loc py loc (child ∷ children) (inl (sub, has_sub, same)) = (
  sub,
  sym (ap (λ (l : TreeLoc). l.rel) same),
  inl (named_tree (λ l. place_of py sub ≡ place_of py l) child.node sub has_sub refl),
)
subtree_loc py loc (child ∷ children) (inr any) =
    let (sub, same, any_loc) = subtree_loc py loc children any in (sub, same, inr any_loc)

module _ {State : Type 0} (b : Backend State) (py : Python) (root cu : Text) where
  pub record FoldersAgree (s s' : State) : Type 0 where
    pub dirs : (q : Text) → InFolders root cu q → b.is_dir s' q ≡ b.is_dir s q
    pub lists : (q : Text) → InFolders root cu q → b.list_dir s' q ≡ b.list_dir s q
    pub reads : (q : Text) → InFolders root cu q → b.read_all s' q ≡ b.read_all s q

  pub FoldersAgree-sym : (s s' : State) → FoldersAgree s s' → FoldersAgree s' s
  FoldersAgree-sym s s' a = record {
    dirs = λ q h. sym (a.dirs q h);
    lists = λ q h. sym (a.lists q h);
    reads = λ q h. sym (a.reads q h);
  }

  all_ranked-same :
      (s s' : State) (base : Text) (outers : List Text)
      → FoldersAgree s s'
      → InFolders root cu base
      → all_ranked b py s' base outers ≡ all_ranked b py s base outers
  unfolding all_ranked
  all_ranked-same s s' base [] a h = refl
  all_ranked-same s s' base (outer ∷ outers) a h =
      let listed = a.lists (join base outer) (InFolders-join root cu base outer h) in
      let rest = all_ranked-same s s' base outers a h in cc (listed, rest)

  list_backuprecords-same :
      (s s' : State) (fu : Text)
      → FoldersAgree s s'
      → list_backuprecords b py s' root cu fu ≡ list_backuprecords b py s root cu fu
  unfolding list_backuprecords
  list_backuprecords-same s s' fu a =
      let base = records_base root cu fu in
      let h = InFolders-base root cu fu in
      rw
        (
          a.dirs base h,
          a.lists base h,
          all_ranked-same s s' base (outer_dirs py (or_empty_list (b.list_dir s base))) a h,
        )
        refl

  pub IsRecord-same :
      (s s' : State) (path : Text)
      → FoldersAgree s s'
      → IsRecord b py root cu s path
      → IsRecord b py root cu s' path
  IsRecord-same s s' path a r =
      let bf = join (computer_root root cu) backupfolders_dir in
      record {
        folders = r.folders;
        folder = r.folder;
        paths = r.paths;
        has_folders = a.dirs bf (InFolders-root root cu) ∙ r.has_folders;
        lists_folders = a.lists bf (InFolders-root root cu) ∙ r.lists_folders;
        in_folders = r.in_folders;
        lists_records = list_backuprecords-same s s' r.folder a ∙ r.lists_records;
        in_paths = r.in_paths;
      }

  module _ (p : Primitives) (keyset : Keyset) where
    HasNode-same :
        (s s' : State) (path : Text) (node : Fields)
        → FoldersAgree s s'
        → HasNode b p py keyset root cu s path node
        → HasNode b p py keyset root cu s' path node
    unfolding record_at
    HasNode-same s s' path node a n =
        let h = IsRecord-InFolders b py root cu s path n.is_record in
        let same : record_at b p py keyset s' path ≡ record_at b p py keyset s path =
          rw (a.reads path h, record_at) refl in
        record {
          is_record = IsRecord-same s s' path a n.is_record;
          fields = n.fields;
          parsed = same ∙ n.parsed;
          has_node = n.has_node;
        }

    pub record Agree (s s' : State) : Type 0 where
      pub folders : FoldersAgree s s'
      pub trees :
          (loc : TreeLoc) → Live b p py keyset root cu s loc → raw_at b s' loc ≡ raw_at b s loc

    fetch-same :
        (s s' : State) (loc : TreeLoc)
        → Agree s s'
        → Live b p py keyset root cu s loc
        → fetch_tree b p keyset s' loc ≡ fetch_tree b p keyset s loc
    unfolding fetch_tree
    fetch-same s s' loc a live = rw (a.trees loc live, fetch_tree) refl

    Live-same :
        (s s' : State) (loc : TreeLoc)
        → Agree s s'
        → Live b p py keyset root cu s loc
        → Live b p py keyset root cu s' loc
    Live-same s s' loc a (top path node d n tree e) =
        top path node d (HasNode-same s s' path node a.folders n) tree e
    Live-same s s' loc a (below parent t live e any) =
        below parent t (Live-same s s' parent a live) (fetch-same s s' parent a live ∙ e) any

    pub Live-back :
        (s s' : State) (loc : TreeLoc)
        → Agree s s'
        → Live b p py keyset root cu s' loc
        → Live b p py keyset root cu s loc
    Live-back s s' loc a (top path node d n tree e) =
        top path node d (HasNode-same s' s path node (FoldersAgree-sym s s' a.folders) n) tree e
    Live-back s s' loc a (below parent t live e any) =
        let old = Live-back s s' parent a live in
        below parent t old (sym (fetch-same s s' parent a old) ∙ e) any

    pub Gathered-same :
        (s s' : State) (place : Place)
        → Agree s s'
        → Gathered b p py keyset root cu s place
        → Gathered b p py keyset root cu s' place
    Gathered-same s s' place a (by_data path node n any) =
        by_data path node (HasNode-same s s' path node a.folders n) any
    Gathered-same s s' place a (by_xattrs path node n any) =
        by_xattrs path node (HasNode-same s s' path node a.folders n) any
    Gathered-same s s' place a (by_record path node d n tree e) =
        by_record path node d (HasNode-same s s' path node a.folders n) tree e
    Gathered-same s s' place a (by_tree parent t live e any) =
        by_tree parent t (Live-same s s' parent a live) (fetch-same s s' parent a live ∙ e) any

    pub HasPlaces-same :
        (s s' : State)
        → Agree s s'
        → HasPlaces b p py keyset root cu s
        → HasPlaces b p py keyset root cu s'
    HasPlaces-same s s' a places path node d n tree =
        places path node d (HasNode-same s' s path node (FoldersAgree-sym s s' a.folders) n) tree

    pub IsContentAddressed-same :
        (s s' : State)
        → Agree s s'
        → IsContentAddressed b p py keyset root cu s
        → IsContentAddressed b p py keyset root cu s'
    IsContentAddressed-same s s' a addressed l m live_l live_m e =
        let old_l = Live-back s s' l a live_l in
        let old_m = Live-back s s' m a live_m in
        fetch-same s s' l a old_l ∙ addressed l m old_l old_m e ∙ sym (fetch-same s s' m a old_m)

    -- Every live tree is a named blob.
    pub Live-Gathered :
        (s : State) (loc : TreeLoc)
        → HasPlaces b p py keyset root cu s
        → Live b p py keyset root cu s loc
        → (place : Place) × Gathered b p py keyset root cu s place × (place.path ≡ loc.rel)
    Live-Gathered s loc places (top path node d n tree e) =
        let (place, has_place, compressed) = places path node d n tree in
        (
          place,
          by_record path node d n tree has_place,
          sym (place_of_dict-HasPlace py d place has_place).rel
              ∙ sym (stated_loc-FromDict py d loc e).rel,
        )
    Live-Gathered s loc places (below parent t live e any) =
        let (sub, same, any_loc) = subtree_loc py loc t.children any in
        (place_of py sub, by_tree parent t live e any_loc, same)
