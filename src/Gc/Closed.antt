-- ===== src/Gc/Closed.antt =====
-- The walk over the trees is complete: where it ends, every tree that it has seen is covered, its
-- locations are found and its subtrees seen.
use arq_backup_tui.Common.{
  ℕ, zero, suc, ◌≡◌, sym, ◌∙◌, subst, Option, none, some, Option-cases, List, [], ◌∷◌, ◌++◌, All,
  ◌⊎◌, inl, inr, Bool-cases, mem_text, Has, Has-cons_self, Has-cons_of_Has, eq-or-Has_of_Has-cons,
  Has-append_left, Has-append_right,
}
use arq_backup_tui.Wire.Types.{Text, BlobLoc, Node, file_node, tree_node, TreeChild, Tree}
use arq_backup_tui.Gc.Walk.{
  TreeLoc, node_tree, node_locs, Walked, gather, find, walk_child, walk_children, Collector, expand,
  mark, walk,
}

abbrev pub AllHas : List Text → List Text → Type 0
AllHas texts = All (λ t. Has texts t)

-- A predicate on the location of a tree, if there is one.
abbrev pub OnTree : (BlobLoc → Type 0) → Option BlobLoc → Type 0
OnTree Q none = Unit
OnTree Q (some sub) = Q sub

pub record Grows (w w' : Walked) : Type 0 where
  pub seen : (t : Text) → Has w.seen t → Has w'.seen t
  pub found : (t : Text) → Has w.found t → Has w'.found t

pub Grows-refl : (w : Walked) → Grows w w
Grows-refl w = record { seen = λ t h. h; found = λ t h. h }

pub Grows-trans : (w w1 w2 : Walked) → Grows w w1 → Grows w1 w2 → Grows w w2
Grows-trans w w1 w2 g h = record {
  seen = λ t p. h.seen t (g.seen t p);
  found = λ t p. h.found t (g.found t p);
}

pub find-Grows : (texts : List Text) (w : Walked) → Grows w (find texts w)
unfolding find
find-Grows texts w = record { seen = λ t h. h; found = λ t h. Has-append_left t w.found texts h }

pub mark-Grows : (entered : List Text) (loc : TreeLoc) (w : Walked) → Grows w (mark entered loc w)
unfolding mark
mark-Grows entered loc w = record {
  seen = λ t h. Has-cons_of_Has t loc.bid w.seen h;
  found = λ t h. Has-append_left t w.found entered h;
}

pub AllHas-mono :
    (us vs ts : List Text) → ((t : Text) → Has us t → Has vs t) → AllHas us ts → AllHas vs ts
AllHas-mono us vs [] f h = tt
AllHas-mono us vs (t ∷ ts) f (h, hs) = (f t h, AllHas-mono us vs ts f hs)

AllHas-self : (ts : List Text) → AllHas ts ts
AllHas-self [] = tt
AllHas-self (t ∷ ts) = (
  Has-cons_self t ts,
  AllHas-mono ts (t ∷ ts) ts (λ u h. Has-cons_of_Has u t ts h) (AllHas-self ts),
)

pub find-AllHas : (texts : List Text) (w : Walked) → AllHas (find texts w).found texts
unfolding find
find-AllHas texts w =
    AllHas-mono texts (w.found ++ texts) texts (λ u h. Has-append_right u w.found texts h)
      (AllHas-self texts)

OnTree-mono :
    (Q R : BlobLoc → Type 0) (sub : Option BlobLoc)
    → ((loc : BlobLoc) → Q loc → R loc)
    → OnTree Q sub
    → OnTree R sub
OnTree-mono Q R none f h = tt
OnTree-mono Q R (some sub) f h = f sub h

module _ (loc_of : BlobLoc → TreeLoc) (leaf need : BlobLoc → List Text) where
  -- The walk has found what it collects of a child, and has seen the child's tree.
  pub record ChildCovered (w : Walked) (node : Node) : Type 0 where
    pub locs : AllHas w.found (gather leaf (node_locs node))
    pub tree : OnTree (λ sub. AllHas w.found (need sub)) (node_tree node)
    pub subtree : OnTree (λ sub. Has w.seen (loc_of sub).bid) (node_tree node)

  abbrev pub AllCovered : Walked → List TreeChild → Type 0
  AllCovered w children = All (λ child. ChildCovered w child.node) children

  ChildCovered-mono :
      (w w' : Walked) (node : Node) → Grows w w' → ChildCovered w node → ChildCovered w' node
  ChildCovered-mono w w' node g c = record {
    locs = AllHas-mono w.found w'.found (gather leaf (node_locs node)) g.found c.locs;
    tree =
        OnTree-mono (λ sub. AllHas w.found (need sub)) (λ sub. AllHas w'.found (need sub))
          (node_tree node) (λ sub. AllHas-mono w.found w'.found (need sub) g.found) c.tree;
    subtree =
        OnTree-mono (λ sub. Has w.seen (loc_of sub).bid) (λ sub. Has w'.seen (loc_of sub).bid)
          (node_tree node) (λ sub. g.seen (loc_of sub).bid) c.subtree;
  }

  pub Covered-mono :
      (w w' : Walked) (children : List TreeChild)
      → Grows w w'
      → AllCovered w children
      → AllCovered w' children
  Covered-mono w w' [] g c = tt
  Covered-mono w w' (child ∷ children) g (c, cs) =
      (ChildCovered-mono w w' child.node g c, Covered-mono w w' children g cs)

  -- `P` holds of the locations that the walk may come to. Locations with one identifier give one tree.
  module _ (fetch : TreeLoc → Option Tree) (P : TreeLoc → Type 0) where
    abbrev pub SubtreesIn : List TreeChild → Type 0
    SubtreesIn children =
        All (λ child. OnTree (λ sub. P (loc_of sub)) (node_tree child.node)) children

    abbrev pub IsCovered : Walked → Text → Type 0
    IsCovered w k =
        (l : TreeLoc) (t : Tree) → P l → l.bid ≡ k → fetch l ≡ some t → AllCovered w t.children

    -- What the second state has seen and the first had not, is covered.
    abbrev pub Fresh : Walked → Walked → Type 0
    Fresh w w' = (k : Text) → Has w'.seen k → Has w.seen k ⊎ IsCovered w' k

    Fresh-trans : (w w1 w2 : Walked) → Grows w1 w2 → Fresh w w1 → Fresh w1 w2 → Fresh w w2
    Fresh-trans w w1 w2 g f h k seen = elim (h k seen) [
      | inr covered ↦ inr covered
      | inl before_last ↦ elim (f k before_last) [
        | inl at_first ↦ inl at_first
        | inr covered ↦ inr (λ l t p e tree. Covered-mono w1 w2 t.children g (covered l t p e tree))
      ]
    ]

    -- A call of the walk at a location with the identifier `k`.
    pub record Visited (k : Text) (w w' : Walked) : Type 0 where
      pub grows : Grows w w'
      pub fresh : Fresh w w'
      pub seen : Has w'.seen k

    -- The walk collects `before`, which has `need` in it.
    module _ (before : BlobLoc → List Text)
        (need_of : (sub : BlobLoc) (found : List Text)
          → AllHas found (before sub)
          → AllHas found (need sub))
        (visit : BlobLoc → Walked → Option Walked)
        (visited : (sub : BlobLoc) (w w' : Walked)
          → P (loc_of sub)
          → visit sub w ≡ some w'
          → Visited (loc_of sub).bid w w') where
      record ChildDone (w w' : Walked) (node : Node) : Type 0 where
        grows : Grows w w'
        fresh : Fresh w w'
        covered : ChildCovered w' node

      walk_child-done :
          (node : Node) (w w' : Walked)
          → OnTree (λ sub. P (loc_of sub)) (node_tree node)
          → walk_child leaf before visit node w ≡ some w'
          → ChildDone w w' node
      unfolding walk_child node_tree find
      walk_child-done (file_node locs f) w w' inside e =
          let texts = gather leaf (node_locs (file_node locs f)) in
          let w1 : find texts w ≡ w' = cc in
          subst (λ u. ChildDone w u (file_node locs f)) w1
            (record {
              grows = find-Grows texts w;
              fresh = λ k seen. inl seen;
              covered = record { locs = find-AllHas texts w; tree = tt; subtree = tt };
            })
      walk_child-done (tree_node loc f) w w' inside e =
          let texts = gather leaf (node_locs (tree_node loc f)) in
          let w1 = find texts w in
          let w2 = find (before loc) w1 in
          let v : Visited (loc_of loc).bid w2 w' = visited loc w2 w' inside e in
          let later : Grows w1 w' = Grows-trans w1 w2 w' (find-Grows (before loc) w1) v.grows in
          record {
            grows = Grows-trans w w1 w' (find-Grows texts w) later;
            fresh = v.fresh;
            covered = record {
              locs = AllHas-mono w1.found w'.found texts later.found (find-AllHas texts w);
              tree = need_of loc w'.found (
                  AllHas-mono w2.found w'.found (before loc) v.grows.found
                    (find-AllHas (before loc) w1));
              subtree = v.seen;
            };
          }

      pub walk_children-done :
          (children : List TreeChild) (w w' : Walked)
          → SubtreesIn children
          → walk_children leaf before visit children w ≡ some w'
          → Grows w w' × Fresh w w' × AllCovered w' children
      unfolding walk_children
      walk_children-done [] w w' inside e =
          let same : w ≡ w' = cc in
          subst (λ u. Grows w u × Fresh w u × Unit {0}) same (Grows-refl w, (λ k h. inl h), tt)
      walk_children-done (child ∷ children) w w' (c, cs) e =
          elim (Option-cases (walk_child leaf before visit child.node w)) [
            | inl none_e ↦
                let e0 : ◌≡◌ {A = Option Walked} none (some w') = rw (none_e, walk_children) at e in
                absurd cc
            | inr (w1, some_e) ↦
                let first = walk_child-done child.node w w1 c some_e in
                let e1 : walk_children leaf before visit children w1 ≡ some w' =
                  rw (some_e, walk_children) at e in
                let rest = walk_children-done children w1 w' cs e1 in
                (
                  Grows-trans w w1 w' first.grows rest.0,
                  Fresh-trans w w1 w' rest.0 first.fresh rest.1,
                  (ChildCovered-mono w1 w' child.node rest.0 first.covered, rest.2),
                )
          ]

    -- Locations with one identifier give one tree, and the subtrees of a tree are in `P`.
    module _ (agree : (l m : TreeLoc) → P l → P m → l.bid ≡ m.bid → fetch l ≡ fetch m)
        (subtrees : (l : TreeLoc) (t : Tree) → P l → fetch l ≡ some t → SubtreesIn t.children) where
      marked-Visited :
          (entered : List Text) (loc : TreeLoc) (w w' : Walked)
          → P loc
          → Grows (mark entered loc w) w'
          → Fresh (mark entered loc w) w'
          → ((t : Tree) → fetch loc ≡ some t → AllCovered w' t.children)
          → Visited loc.bid w w'
      unfolding mark
      marked-Visited entered loc w w' inside grows fresh covered = record {
        grows = Grows-trans w (mark entered loc w) w' (mark-Grows entered loc w) grows;
        fresh = λ k h. elim (fresh k h) [
          | inr c ↦ inr c
          | inl old ↦ elim (eq-or-Has_of_Has-cons k loc.bid w.seen old) [
            | inl same ↦
                inr (λ l t pl e tree. covered t (agree loc l inside pl (sym (e ∙ same)) ∙ tree))
            | inr seen ↦ inl seen
          ]
        ];
        seen = grows.seen loc.bid (Has-cons_self loc.bid w.seen);
      }

      -- From the mark on.
      pub expand-Visited :
          (before : BlobLoc → List Text)
          → ((sub : BlobLoc) (found : List Text)
              → AllHas found (before sub)
              → AllHas found (need sub))
          → (visit : BlobLoc → Walked → Option Walked)
          → ((sub : BlobLoc) (w w' : Walked)
              → P (loc_of sub)
              → visit sub w ≡ some w'
              → Visited (loc_of sub).bid w w')
          → (entered : List Text) (loc : TreeLoc) (w w' : Walked) → P loc
          → expand fetch loc_of leaf before visit loc (mark entered loc w) ≡ some w'
          → Visited loc.bid w w'
      unfolding expand
      expand-Visited before need_of visit visited entered loc w w' inside e =
          elim (Option-cases (fetch loc)) [
            | inl none_e ↦
                let e1 : some (mark entered loc w) ≡ some w' = rw (none_e, expand) at e in
                let same : mark entered loc w ≡ w' = cc in
                subst (λ u. Visited loc.bid w u) same
                  (marked-Visited entered loc w (mark entered loc w) inside
                    (Grows-refl (mark entered loc w)) (λ k h. inl h) (λ t tree. absurd cc))
            | inr (t, some_e) ↦
                let e1 : walk_children leaf before visit t.children (mark entered loc w) ≡ some w' =
                  rw (some_e, expand) at e in
                let (grows, fresh, covered) =
                  walk_children-done before need_of visit visited t.children (mark entered loc w) w'
                    (subtrees loc t inside some_e) e1 in
                marked-Visited entered loc w w' inside grows fresh (λ u tree.
                  let same : t ≡ u = cc in subst (λ v. AllCovered w' v.children) same covered)
          ]

module _ (fetch : TreeLoc → Option Tree) (loc_of : BlobLoc → TreeLoc) (c : Collector)
    (need : BlobLoc → List Text)
    (need_of : (sub : BlobLoc) (found : List Text)
      → AllHas found (c.before sub)
      → AllHas found (need sub))
    (P : TreeLoc → Type 0) (agree : (l m : TreeLoc) → P l → P m → l.bid ≡ m.bid → fetch l ≡ fetch m)
    (subtrees : (l : TreeLoc) (t : Tree)
      → P l
      → fetch l ≡ some t
      → SubtreesIn loc_of c.leaf need fetch P t.children) where
  pub walk-Visited :
      (fuel : ℕ) (loc : TreeLoc) (w w' : Walked)
      → P loc
      → walk fetch loc_of c fuel loc w ≡ some w'
      → Visited loc_of c.leaf need fetch P loc.bid w w'
  unfolding walk
  walk-Visited zero loc w w' inside e = absurd cc
  walk-Visited (suc fuel) loc w w' inside e = elim (Bool-cases (mem_text loc.bid w.seen)) [
    | inl again ↦
        let e1 : some w ≡ some w' = rw (again, walk) at e in
        let same : w ≡ w' = cc in
        subst (λ u. Visited loc_of c.leaf need fetch P loc.bid w u) same
          (record { grows = Grows-refl w; fresh = λ k h. inl h; seen = again })
    | inr new ↦
        expand-Visited loc_of c.leaf need fetch P agree subtrees c.before need_of
          (λ sub. walk fetch loc_of c fuel (loc_of sub))
          (λ sub u u' p q. walk-Visited fuel (loc_of sub) u u' p q) (c.enter loc) loc w w' inside
          (rw (new, walk) at e)
  ]
