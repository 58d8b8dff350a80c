-- ===== src/Gc/Meet.antt =====
-- What holds of every item of a record, and what holds of some item, hold of one item together.
use arq_backup_tui.Common.{
  ◌≡◌, refl, sym, subst, Option, none, some, List, [], ◌∷◌, ◌++◌, All, ◌⊎◌, inl, inr, Has,
  not_Has-nil, eq-or-Has_of_Has-cons, Has-cons_self, Has-cons_of_Has,
}
use arq_backup_tui.Wire.Types.{Text, BlobLoc, Node, file_node, tree_node, TreeChild, Tree}
use arq_backup_tui.Pack.Builder.{codes}
use arq_backup_tui.Record.Values.{
  Value, null, bool, int, text, list, dict, opaque, Values, nil, cons, Fields, get_field, Python,
}
use arq_backup_tui.Gc.Walk.{
  TreeLoc, node_tree, node_locs, node_data, node_fields, of_option, gather, loc_of_blobloc,
}
use arq_backup_tui.Gc.Closed.{AllHas, OnTree, SubtreesIn}
use arq_backup_tui.Gc.OnRecords.{AllDicts, OnItems, OnDict, OnNode, OnRecord}
use arq_backup_tui.Gc.Live.{Place, AnyChild, AnyLoc, OnSome, Names, AnyDict, InItems, place_of}

-- A predicate on every element, and on each text of the set.
pub All-of_Has : (Q : Text → Type 0) (ts : List Text) → ((t : Text) → Has ts t → Q t) → All Q ts
All-of_Has Q [] f = tt
All-of_Has Q (t ∷ ts) f =
    (f t (Has-cons_self t ts), All-of_Has Q ts (λ u h. f u (Has-cons_of_Has u t ts h)))

pub All-at : (Q : Text → Type 0) (ts : List Text) (t : Text) → All Q ts → Has ts t → Q t
All-at Q [] t h m = absurd (not_Has-nil t m)
All-at Q (u ∷ us) t (h, hs) m = elim (eq-or-Has_of_Has-cons t u us m) [
  | inl same ↦ subst Q (sym same) h
  | inr later ↦ All-at Q us t hs later
]

-- An element of each kind meets what holds of all.
module _ {X : Type 0} (Q R : Fields → Type 0) (meet : (d : Fields) → Q d → R d → X) where
  dicts-meet : (vs : Values) → AllDicts Q vs → AnyDict R vs → X
  dicts-meet nil q r = absurd r
  dicts-meet (cons (dict d) vs) (q, qs) (inl r) = meet d q r
  dicts-meet (cons (dict d) vs) (q, qs) (inr r) = dicts-meet vs qs r
  dicts-meet (cons null vs) q r = dicts-meet vs q r
  dicts-meet (cons (bool b) vs) q r = dicts-meet vs q r
  dicts-meet (cons (int z) vs) q r = dicts-meet vs q r
  dicts-meet (cons (text x) vs) q r = dicts-meet vs q r
  dicts-meet (cons (list us) vs) q r = dicts-meet vs q r
  dicts-meet (cons (opaque n) vs) q r = dicts-meet vs q r

  pub items-meet : (v : Value) → OnItems Q v → InItems R v → X
  items-meet (list vs) q r = dicts-meet vs q r
  items-meet (dict d) q r = absurd r
  items-meet null q r = absurd r
  items-meet (bool b) q r = absurd r
  items-meet (int z) q r = absurd r
  items-meet (text x) q r = absurd r
  items-meet (opaque n) q r = absurd r

AllDicts-any : (vs : Values) → AllDicts (λ d. Unit) vs
AllDicts-any nil = tt
AllDicts-any (cons (dict d) vs) = (tt, AllDicts-any vs)
AllDicts-any (cons null vs) = AllDicts-any vs
AllDicts-any (cons (bool b) vs) = AllDicts-any vs
AllDicts-any (cons (int z) vs) = AllDicts-any vs
AllDicts-any (cons (text x) vs) = AllDicts-any vs
AllDicts-any (cons (list us) vs) = AllDicts-any vs
AllDicts-any (cons (opaque n) vs) = AllDicts-any vs

OnItems-any : (v : Value) → OnItems (λ d. Unit) v
OnItems-any (list vs) = AllDicts-any vs
OnItems-any other = tt

OnDict-of : (T : Fields → Type 0) (v : Value) → ((d : Fields) → v ≡ dict d → T d) → OnDict T v
OnDict-of T (dict d) f = f d refl
OnDict-of T other f = tt

OnNode-of :
    (T : Fields → Type 0) (v : Value)
    → ((node d : Fields) → v ≡ dict node → get_field node (codes "treeBlobLoc") ≡ dict d → T d)
    → OnNode (λ d. Unit) T v
OnNode-of T (dict node) f = (
  OnItems-any (get_field node (codes "dataBlobLocs")),
  OnItems-any (get_field node (codes "xattrsBlobLocs")),
  OnDict-of T (get_field node (codes "treeBlobLoc")) (λ d e. f node d refl e),
)
OnNode-of T other f = tt

pub OnRecord-of :
    (T : Fields → Type 0) (r : Option Fields)
    → ((fields node d : Fields)
        → r ≡ some fields
        → get_field fields (codes "node") ≡ dict node
        → get_field node (codes "treeBlobLoc") ≡ dict d
        → T d)
    → OnRecord (λ d. Unit) T r
OnRecord-of T none f = tt
OnRecord-of T (some fields) f =
    OnNode-of T (get_field fields (codes "node")) (λ node d e g. f fields node d refl e g)

pub children-meet :
    {X : Type 0} (Q R : Node → Type 0) (meet : (n : Node) → Q n → R n → X)
    (children : List TreeChild)
    → All (λ child. Q child.node) children
    → AnyChild R children
    → X
children-meet Q R meet [] q r = absurd r
children-meet Q R meet (child ∷ children) (q, qs) (inl r) = meet child.node q r
children-meet Q R meet (child ∷ children) (q, qs) (inr r) = children-meet Q R meet children qs r

OnTree-of :
    (Q : BlobLoc → Type 0) (o : Option BlobLoc)
    → ((sub : BlobLoc) → o ≡ some sub → Q sub)
    → OnTree Q o
OnTree-of Q none f = tt
OnTree-of Q (some sub) f = f sub refl

pub OnTree-at :
    (Q : BlobLoc → Type 0) (o : Option BlobLoc) (sub : BlobLoc) → OnTree Q o → o ≡ some sub → Q sub
OnTree-at Q o sub h e = subst (OnTree Q) e h

abbrev pub IsSubtree : Python → TreeLoc → Node → Type 0
IsSubtree py loc n = (sub : BlobLoc) × (node_tree n ≡ some sub) × (loc ≡ loc_of_blobloc py sub)

pub SubtreesIn-of :
    (py : Python) (P : TreeLoc → Type 0) (fetch : TreeLoc → Option Tree)
    (leaf need : BlobLoc → List Text) (children : List TreeChild)
    → ((loc : TreeLoc) → AnyChild (IsSubtree py loc) children → P loc)
    → SubtreesIn (loc_of_blobloc py) leaf need fetch P children
SubtreesIn-of py P fetch leaf need [] f = tt
SubtreesIn-of py P fetch leaf need (child ∷ children) f = (
  OnTree-of (λ sub. P (loc_of_blobloc py sub)) (node_tree child.node)
      (λ sub e. f (loc_of_blobloc py sub) (inl (sub, e, refl))),
  SubtreesIn-of py P fetch leaf need children (λ loc h. f loc (inr h)),
)

module _ (Q : BlobLoc → Type 0) where
  AnyLoc-left : (ls ms : List BlobLoc) → AnyLoc Q ls → AnyLoc Q (ls ++ ms)
  AnyLoc-left [] ms h = absurd h
  AnyLoc-left (l ∷ ls) ms (inl h) = inl h
  AnyLoc-left (l ∷ ls) ms (inr h) = inr (AnyLoc-left ls ms h)

  AnyLoc-right : (ls ms : List BlobLoc) → AnyLoc Q ms → AnyLoc Q (ls ++ ms)
  AnyLoc-right [] ms h = h
  AnyLoc-right (l ∷ ls) ms h = inr (AnyLoc-right ls ms h)

  AnyLoc-of_option : (o : Option BlobLoc) → OnSome Q o → AnyLoc Q (of_option o)
  AnyLoc-of_option none h = absurd h
  AnyLoc-of_option (some loc) h = inl h

  AnyLoc-attached :
      (locs xattrs : List BlobLoc) (acl : Option BlobLoc)
      → AnyLoc Q xattrs ⊎ OnSome Q acl
      → AnyLoc Q (locs ++ (xattrs ++ of_option acl))
  AnyLoc-attached locs xattrs acl (inl h) =
      AnyLoc-right locs (xattrs ++ of_option acl) (AnyLoc-left xattrs (of_option acl) h)
  AnyLoc-attached locs xattrs acl (inr h) =
      AnyLoc-right locs (xattrs ++ of_option acl)
        (AnyLoc-right xattrs (of_option acl) (AnyLoc-of_option acl h))

  -- What a node names is in the lists that the walk goes through.
  pub Names-locs : (n : Node) → Names Q n → AnyLoc Q (node_locs n ++ of_option (node_tree n))
  unfolding node_locs node_data node_fields node_tree
  Names-locs (file_node locs f) (inl h) =
      AnyLoc-left (locs ++ (f.xattrs_blob_locs ++ of_option f.acl_blob_loc)) []
        (AnyLoc-left locs (f.xattrs_blob_locs ++ of_option f.acl_blob_loc) h)
  Names-locs (file_node locs f) (inr h) =
      AnyLoc-left (locs ++ (f.xattrs_blob_locs ++ of_option f.acl_blob_loc)) []
        (AnyLoc-attached locs f.xattrs_blob_locs f.acl_blob_loc h)
  Names-locs (tree_node loc f) (inl h) =
      AnyLoc-right (f.xattrs_blob_locs ++ of_option f.acl_blob_loc) (loc ∷ []) (inl h)
  Names-locs (tree_node loc f) (inr h) =
      AnyLoc-left (f.xattrs_blob_locs ++ of_option f.acl_blob_loc) (loc ∷ [])
        (AnyLoc-attached [] f.xattrs_blob_locs f.acl_blob_loc h)

-- The locations of a list, and the one that is optional, meet what is found of them.
module _ (py : Python) (found : List Text) (leaf : BlobLoc → List Text) (Goal : Place → Type 0)
    (place : Place)
    (on_leaf : (loc : BlobLoc) → AllHas found (leaf loc) → Goal (place_of py loc)) where
  AllHas-split : (ts us : List Text) → AllHas found (ts ++ us) → AllHas found ts × AllHas found us
  AllHas-split [] us h = (tt, h)
  AllHas-split (t ∷ ts) us (h, hs) = let (a, c) = AllHas-split ts us hs in ((h, a), c)

  pub locs-meet :
      (locs : List BlobLoc) (last : Option BlobLoc)
      → AllHas found (gather leaf locs)
      → ((sub : BlobLoc) → last ≡ some sub → Goal (place_of py sub))
      → AnyLoc (λ loc. place ≡ place_of py loc) (locs ++ of_option last)
      → Goal place
  unfolding gather
  locs-meet [] none h f r = absurd r
  locs-meet [] (some sub) h f (inl e) = subst Goal (sym e) (f sub refl)
  locs-meet [] (some sub) h f (inr r) = absurd r
  locs-meet (loc ∷ locs) last h f (inl e) =
      subst Goal (sym e) (on_leaf loc (AllHas-split (leaf loc) (gather leaf locs) h).0)
  locs-meet (loc ∷ locs) last h f (inr r) =
      locs-meet locs last (AllHas-split (leaf loc) (gather leaf locs) h).1 f r
