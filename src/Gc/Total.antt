-- ===== src/Gc/Total.antt =====
-- The walks end: fuel of one more than the number of identifiers that can be met is enough.
use arq_backup_tui.Common.{
  arith, ℕ, zero, suc, ◌≡◌, refl, sym, subst, ◌≤◌, ◌<◌, true, false, Option, some, Option-cases,
  List, [], ◌∷◌, length, All, inl, inr, Bool-cases, if◌then◌else◌, mem_text, Has, Has-cons_of_Has,
  Has-cons_self, eq-or-Has_of_Has-cons, not_Has-nil, ◌-◌,
}
use arq_backup_tui.Wire.Types.{Text, BlobLoc, Node, file_node, tree_node, TreeChild, Tree}
use arq_backup_tui.Gc.Walk.{
  TreeLoc, node_tree, node_locs, Walked, gather, find, walk_child, walk_children, Collector, expand,
  mark, walk,
}
use arq_backup_tui.Gc.Closed.{OnTree}

-- How many of the identifiers are not seen yet.
pub unseen : List Text → List Text → ℕ
unseen [] seen = 0
unseen (u ∷ us) seen = if mem_text u seen then unseen us seen else suc (unseen us seen)

pub unseen-le-length : (us seen : List Text) → unseen us seen ≤ length us
unfolding unseen
unseen-le-length [] seen = omega arith
unseen-le-length (u ∷ us) seen = ground (arith, unseen-le-length us seen)

unseen-le :
    (us seen seen' : List Text)
    → ((t : Text) → Has seen t → Has seen' t)
    → unseen us seen' ≤ unseen us seen
unfolding unseen
unseen-le [] seen seen' f = omega arith
unseen-le (u ∷ us) seen seen' f = ground (arith, unseen-le us seen seen' f, f u)

unseen-lt :
    (us seen : List Text) (k : Text)
    → Has us k
    → mem_text k seen ≡ false
    → unseen us (k ∷ seen) < unseen us seen
unfolding unseen
unseen-lt [] seen k h new = absurd (not_Has-nil k h)
unseen-lt (u ∷ us) seen k h new = elim (eq-or-Has_of_Has-cons k u us h) [
  | inl same ↦
      let now : mem_text u (k ∷ seen) ≡ true =
        subst (λ t. Has (t ∷ seen) u) (sym same) (Has-cons_self u seen) in
      let before : mem_text u seen ≡ false = subst (λ t. mem_text t seen ≡ false) same new in
      ground (arith, unseen-le us seen (k ∷ seen) (λ t. Has-cons_of_Has t k seen))
  | inr later ↦ ground (arith, unseen-lt us seen k later new, Has-cons_of_Has u k seen)
]

module _ (leaf before : BlobLoc → List Text) (visit : BlobLoc → Walked → Option Walked)
    (P : BlobLoc → Type 0) (us : List Text) (n : ℕ)
    (total : (sub : BlobLoc) (w : Walked)
      → P sub
      → unseen us w.seen ≤ n
      → (w' : Walked) × (visit sub w ≡ some w') × (unseen us w'.seen ≤ n)) where
  walk_child-total :
      (node : Node) (w : Walked)
      → OnTree P (node_tree node)
      → unseen us w.seen ≤ n
      → (w' : Walked) × (walk_child leaf before visit node w ≡ some w') × (unseen us w'.seen ≤ n)
  unfolding walk_child node_tree find
  walk_child-total (file_node locs f) w inside h =
      (find (gather leaf (node_locs (file_node locs f))) w, refl, h)
  walk_child-total (tree_node loc f) w inside h =
      total loc (find (before loc) (find (gather leaf (node_locs (tree_node loc f))) w)) inside h

  walk_children-total :
      (children : List TreeChild) (w : Walked)
      → All (λ child. OnTree P (node_tree child.node)) children
      → unseen us w.seen ≤ n
      → (w' : Walked) × (walk_children leaf before visit children w ≡ some w')
        × (unseen us w'.seen ≤ n)
  unfolding walk_children
  walk_children-total [] w inside h = (w, refl, h)
  walk_children-total (child ∷ children) w (i, is) h =
      let (w1, e1, h1) = walk_child-total child.node w i h in
      let (w2, e2, h2) = walk_children-total children w1 is h1 in
      (w2, rw (e1, walk_children) e2, h2)

  pub expand-total :
      (fetch : TreeLoc → Option Tree) (loc_of : BlobLoc → TreeLoc) (loc : TreeLoc) (w : Walked)
      → ((t : Tree)
          → fetch loc ≡ some t
          → All (λ child. OnTree P (node_tree child.node)) t.children)
      → unseen us w.seen ≤ n
      → (w' : Walked) × (expand fetch loc_of leaf before visit loc w ≡ some w')
        × (unseen us w'.seen ≤ n)
  unfolding expand
  expand-total fetch loc_of loc w inside h = elim (Option-cases (fetch loc)) [
    | inl none_e ↦ (w, rw (none_e, expand) refl, h)
    | inr (t, some_e) ↦
        let (w', e, h') = walk_children-total t.children w (inside t some_e) h in
        (w', rw (some_e, expand) e, h')
  ]

module _ (fetch : TreeLoc → Option Tree) (loc_of : BlobLoc → TreeLoc) (P : TreeLoc → Type 0)
    (us : List Text) (known : (loc : TreeLoc) → P loc → Has us loc.bid)
    (subtrees : (loc : TreeLoc) (t : Tree)
      → P loc
      → fetch loc ≡ some t
      → All (λ child. OnTree (λ sub. P (loc_of sub)) (node_tree child.node)) t.children) where
  pub walk-total :
      (c : Collector) (fuel : ℕ) (loc : TreeLoc) (w : Walked)
      → P loc
      → unseen us w.seen < fuel
      → (w' : Walked) × (walk fetch loc_of c fuel loc w ≡ some w')
        × (unseen us w'.seen ≤ unseen us w.seen)
  unfolding walk mark
  walk-total c zero loc w inside h = absurd (omega arith)
  walk-total c (suc fuel) loc w inside h = elim (Bool-cases (mem_text loc.bid w.seen)) [
    | inl again ↦ (w, rw (again, walk) refl, omega arith)
    | inr new ↦
        let n = unseen us w.seen - 1 in
        let fewer : unseen us (loc.bid ∷ w.seen) < unseen us w.seen =
          unseen-lt us w.seen loc.bid (known loc inside) new in
        let (w', e, h') =
          expand-total c.leaf c.before (λ sub. walk fetch loc_of c fuel (loc_of sub))
            (λ sub. P (loc_of sub)) us n
            (λ sub v i l.
              let (v', e', l') = walk-total c fuel (loc_of sub) v i (omega arith) in
              (v', e', omega arith))
            fetch loc_of loc (mark (c.enter loc) loc w) (λ t. subtrees loc t inside)
            (omega arith) in
        (w', rw (new, walk) e, omega arith)
  ]
