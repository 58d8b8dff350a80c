-- ===== src/Gc/Complete.antt =====
-- What a collection that returns has gathered: the part that both collections share.
use arq_backup_tui.Common.{◌≡◌, refl, sym, ◌∙◌, subst, Option, some, List, [], Has}
use arq_backup_tui.Common.Result.{Result, ok}
use arq_backup_tui.Wire.Types.{Text, BlobLoc, Tree}
use arq_backup_tui.Crypto.Primitives.{Primitives}
use arq_backup_tui.Crypto.Keyset.{Keyset}
use arq_backup_tui.Pack.Builder.{codes}
use arq_backup_tui.Backend.{Backend}
use arq_backup_tui.Record.Values.{dict, Fields, get_field, Python}
use arq_backup_tui.Gc.Walk.{
  Failure, TreeLoc, node_tree, node_locs, Walked, find, fetch_tree, loc_of_blobloc, loc_of_dict,
  bid_of_dict,
}
use arq_backup_tui.Gc.Collect.{record_at, collect}
use arq_backup_tui.Gc.Closed.{
  AllHas, Grows, find-Grows, ChildCovered, Covered-mono, SubtreesIn, IsCovered,
}
use arq_backup_tui.Gc.Collected.{collect-Recorded}
use arq_backup_tui.Gc.OnRecords.{OnDict, OnNode, OnRecord, OnFolder, EachRecord}
use arq_backup_tui.Gc.Live.{
  Place, Names, IsRecord, HasNode, Live, top, below, place_of, place_of_dict, Gathered, by_data,
  by_xattrs, by_record, by_tree, HasPlaces, IsCompressed,
}
use arq_backup_tui.Gc.Places.{loc_of_dict-stated_loc, stated_loc-FromDict}
use arq_backup_tui.Gc.Meet.{
  All-of_Has, All-at, items-meet, OnRecord-of, children-meet, OnTree-at, IsSubtree, SubtreesIn-of,
  Names-locs, locs-meet,
}

module _ {State : Type 0} (b : Backend State) (py : Python) (root cu : Text) (s : State) where
  pub EachRecord-of :
      (Q : Text → Type 0)
      → ((path : Text) → IsRecord b py root cu s path → Q path)
      → EachRecord b py s root cu Q
  EachRecord-of Q f folders dir listed =
      All-of_Has (OnFolder b py s root cu Q) folders (λ fu m ps e. All-of_Has Q ps (λ path n.
        f path (record {
          folders = folders;
          folder = fu;
          paths = ps;
          has_folders = dir;
          lists_folders = listed;
          in_folders = m;
          lists_records = e;
          in_paths = n;
        })))

  pub EachRecord-at :
      (Q : Text → Type 0) (path : Text)
      → EachRecord b py s root cu Q
      → IsRecord b py root cu s path
      → Q path
  EachRecord-at Q path each r =
      All-at Q r.paths path
        (All-at (OnFolder b py s root cu Q) r.folders r.folder
          (each r.folders r.has_folders r.lists_folders) r.in_folders r.paths r.lists_records)
        r.in_paths

module _ {State : Type 0} (b : Backend State) (p : Primitives) (py : Python) (keyset : Keyset)
    (root cu : Text) (s : State) where
  abbrev fetch : TreeLoc → Option Tree
  fetch = fetch_tree b p keyset s

  abbrev IsLive : TreeLoc → Type 0
  IsLive = Live b p py keyset root cu s

  pub subtrees-IsLive :
      (leaf need : BlobLoc → List Text) (loc : TreeLoc) (t : Tree)
      → IsLive loc
      → fetch loc ≡ some t
      → SubtreesIn (loc_of_blobloc py) leaf need fetch IsLive t.children
  subtrees-IsLive leaf need loc t live e =
      SubtreesIn-of py IsLive fetch leaf need t.children (λ sub any. below loc t live e any)

  -- What a collection maintains, what a walk from a dict is given, and what it leaves behind.
  abbrev pub Closed : (BlobLoc → List Text) → (BlobLoc → List Text) → Walked → Type 0
  Closed leaf need w =
      (k : Text) → Has w.seen k → IsCovered (loc_of_blobloc py) leaf need fetch IsLive w k

  abbrev pub Invariant :
      (BlobLoc → List Text) → (BlobLoc → List Text) → (Walked → Type 0) → Walked → Type 0
  Invariant leaf need E w = Closed leaf need w × E w

  abbrev pub IsRoot : Fields → Type 0
  IsRoot d =
      ((loc : TreeLoc) → loc_of_dict py d ≡ some loc → IsLive loc)
      × ((place : Place) × (place_of_dict py d ≡ some place))

  abbrev pub Seen : Walked → Fields → Type 0
  Seen w d = Has w.seen (bid_of_dict py d)

  of_places :
      (path : Text) (node d : Fields)
      → HasNode b p py keyset root cu s path node
      → get_field node (codes "treeBlobLoc") ≡ dict d
      → (place : Place) × (place_of_dict py d ≡ some place) × IsCompressed py d
      → IsRoot d
  of_places path node d n tree (place, has_place, compressed) = (
    λ loc e. top path node d n tree (sym (loc_of_dict-stated_loc py d compressed) ∙ e),
    (place, has_place),
  )

  -- Every record's tree is a root.
  pub roots-good :
      HasPlaces b p py keyset root cu s
      → EachRecord b py s root cu
          (λ path. OnRecord (λ d. Unit) IsRoot (record_at b p py keyset s path))
  roots-good places =
      EachRecord-of b py root cu s
        (λ path. OnRecord (λ d. Unit) IsRoot (record_at b p py keyset s path))
        (λ path r.
          OnRecord-of IsRoot (record_at b p py keyset s path) (λ fields node d parsed has_node tree.
            let n : HasNode b p py keyset root cu s path node = record {
              is_record = r;
              fields = fields;
              parsed = parsed;
              has_node = has_node;
            } in
            of_places path node d n tree (places path node d n tree)))

  module _ (leaf need : BlobLoc → List Text) (add : Fields → List Text)
      (walk : Fields → Walked → Result Failure Walked) (E : Walked → Type 0) where
    module _ (E-find : (texts : List Text) (w : Walked) → E w → E (find texts w))
        (walked : (d : Fields) (w w' : Walked)
          → IsRoot d
          → Invariant leaf need E w
          → AllHas w.found (add d)
          → walk d w ≡ ok w'
          → Grows w w' × Invariant leaf need E w' × Seen w' d)
        (places : HasPlaces b p py keyset root cu s) where
      Invariant-find :
          (texts : List Text) (w : Walked)
          → Invariant leaf need E w
          → Invariant leaf need E (find texts w)
      unfolding find
      Invariant-find texts w (closed, e) = (
        λ k seen l t live same tree.
            Covered-mono (loc_of_blobloc py) leaf need w (find texts w) t.children
              (find-Grows texts w) (closed k seen l t live same tree),
        E-find texts w e,
      )

      module _ (found : List Text)
          (start : Invariant leaf need E (record { seen = []; found = [] }))
          (returned : collect b p py keyset add walk s root cu ≡ ok found) where
        abbrev On : Walked → Text → Type 0
        On w path =
            OnRecord (λ d. AllHas w.found (add d)) (λ d. AllHas w.found (add d) × Seen w d)
              (record_at b p py keyset s path)

        pub collected :
            (w : Walked) × (w.found ≡ found)
            × Invariant leaf need E w
            × EachRecord b py s root cu (On w)
        collected =
            collect-Recorded b p py keyset s add walk IsRoot (Invariant leaf need E) Seen
              Invariant-find (λ w w' d g h. g.seen (bid_of_dict py d) h) walked root cu found start
              (roots-good places) returned

  module _ (leaf need : BlobLoc → List Text) (add : Fields → List Text) where
    -- What a state of the walk in which every record is recorded has found.
    module _ (w : Walked) (closed : Closed leaf need w)
        (each : EachRecord b py s root cu (λ path.
          OnRecord
            (λ d. AllHas w.found (add d))
            (λ d. AllHas w.found (add d) × Seen w d)
            (record_at b p py keyset s path))) where
      abbrev NodeFound : Fields → Type 0
      NodeFound node =
          OnNode (λ d. AllHas w.found (add d)) (λ d. AllHas w.found (add d) × Seen w d) (dict node)

      node-found :
          (path : Text) (node : Fields) → HasNode b p py keyset root cu s path node → NodeFound node
      node-found path node n =
          let Q = λ (d : Fields). AllHas w.found (add d) in
          let T = λ (d : Fields). AllHas w.found (add d) × Seen w d in
          let on_path =
            EachRecord-at b py root cu s (λ q. OnRecord Q T (record_at b p py keyset s q)) path each
              n.is_record in
          subst (OnNode Q T) n.has_node (subst (OnRecord Q T) n.parsed on_path)

      pub Live-seen : (loc : TreeLoc) → IsLive loc → Has w.seen loc.bid
      Live-seen loc (top path node d n tree e) =
          let T = λ (c : Fields). AllHas w.found (add c) × Seen w c in
          let reached : T d = subst (OnDict T) tree (node-found path node n).2 in
          subst (Has w.seen) (sym (stated_loc-FromDict py d loc e).bid) reached.1
      Live-seen loc (below parent t live e any) =
          let covered = closed parent.bid (Live-seen parent live) parent t live refl e in
          children-meet (λ n. ChildCovered (loc_of_blobloc py) leaf need w n) (IsSubtree py loc)
            (λ n c (sub, has_sub, same).
              let here_seen =
                OnTree-at (λ u. Has w.seen (loc_of_blobloc py u).bid) (node_tree n) sub c.subtree
                  has_sub in
              subst (λ l. Has w.seen l.bid) (sym same) here_seen)
            t.children covered any

      -- What was to be found of a named blob follows from what is found where it is named.
      pub Gathered-found :
          (Goal : Place → Type 0)
          → ((d : Fields) (place : Place)
              → place_of_dict py d ≡ some place
              → AllHas w.found (add d)
              → Goal place)
          → ((loc : BlobLoc) → AllHas w.found (leaf loc) → Goal (place_of py loc))
          → ((sub : BlobLoc)
              → AllHas w.found (need sub)
              → Has w.seen (loc_of_blobloc py sub).bid
              → Goal (place_of py sub))
          → (place : Place) → Gathered b p py keyset root cu s place
          → Goal place
      Gathered-found Goal on_dict on_leaf on_tree place (by_data path node n any) =
          items-meet (λ d. AllHas w.found (add d)) (λ d. place_of_dict py d ≡ some place)
            (λ d h e. on_dict d place e h) (get_field node (codes "dataBlobLocs"))
            (node-found path node n).0 any
      Gathered-found Goal on_dict on_leaf on_tree place (by_xattrs path node n any) =
          items-meet (λ d. AllHas w.found (add d)) (λ d. place_of_dict py d ≡ some place)
            (λ d h e. on_dict d place e h) (get_field node (codes "xattrsBlobLocs"))
            (node-found path node n).1 any
      Gathered-found Goal on_dict on_leaf on_tree place (by_record path node d n tree e) =
          let T = λ (c : Fields). AllHas w.found (add c) × Seen w c in
          let reached : T d = subst (OnDict T) tree (node-found path node n).2 in
          on_dict d place e reached.0
      Gathered-found Goal on_dict on_leaf on_tree place (by_tree parent t live e any) =
          let covered = closed parent.bid (Live-seen parent live) parent t live refl e in
          children-meet (λ n. ChildCovered (loc_of_blobloc py) leaf need w n)
            (Names (λ loc. place ≡ place_of py loc))
            (λ n c named.
              locs-meet py w.found leaf Goal place on_leaf (node_locs n) (node_tree n) c.locs
                (λ sub has_sub.
                  on_tree sub
                    (OnTree-at (λ u. AllHas w.found (need u)) (node_tree n) sub c.tree has_sub)
                    (OnTree-at (λ u. Has w.seen (loc_of_blobloc py u).bid) (node_tree n) sub
                      c.subtree has_sub))
                (Names-locs (λ loc. place ≡ place_of py loc) n named))
            t.children covered any
