-- ===== src/Gc/Noted.antt =====
-- The walk that collects identifiers has found the identifier of every tree that it has seen.
use arq_backup_tui.Common.{
  ℕ, zero, suc, ◌≡◌, subst, Option, none, some, Option-cases, List, [], ◌∷◌, inl, inr, Bool-cases,
  mem_text, Has, Has-cons_self, eq-or-Has_of_Has-cons, Has-append_left, Has-append_right,
}
use arq_backup_tui.Wire.Types.{Text, BlobLoc, Node, file_node, tree_node, TreeChild, Tree}
use arq_backup_tui.Gc.Walk.{
  TreeLoc, node_tree, node_locs, Walked, gather, find, walk_child, walk_children, expand, mark,
  walk,
}

abbrev pub Noted : Walked → Type 0
Noted w = (k : Text) → Has w.seen k → Has w.found k

pub find-Noted : (texts : List Text) (w : Walked) → Noted w → Noted (find texts w)
unfolding find
find-Noted texts w noted k seen = Has-append_left k w.found texts (noted k seen)

pub mark-Noted : (loc : TreeLoc) (w : Walked) → Noted w → Noted (mark (loc.bid ∷ []) loc w)
unfolding mark
mark-Noted loc w noted k seen = elim (eq-or-Has_of_Has-cons k loc.bid w.seen seen) [
  | inl same ↦ Has-append_right k w.found (loc.bid ∷ []) (rw same (Has-cons_self loc.bid []))
  | inr old ↦ Has-append_left k w.found (loc.bid ∷ []) (noted k old)
]

-- Of a location whose identifier is found already.
pub mark-Noted_found :
    (loc : TreeLoc) (w : Walked) → Has w.found loc.bid → Noted w → Noted (mark [] loc w)
unfolding mark
mark-Noted_found loc w here_found noted k seen =
    Has-append_left k w.found [] (elim (eq-or-Has_of_Has-cons k loc.bid w.seen seen) [
      | inl same ↦ rw same here_found
      | inr old ↦ noted k old
    ])

module _ (leaf before : BlobLoc → List Text) (visit : BlobLoc → Walked → Option Walked)
    (visit-Noted : (sub : BlobLoc) (w w' : Walked)
      → Noted w
      → visit sub w ≡ some w'
      → Noted w') where
  walk_child-Noted :
      (node : Node) (w w' : Walked)
      → Noted w
      → walk_child leaf before visit node w ≡ some w'
      → Noted w'
  unfolding walk_child node_tree
  walk_child-Noted (file_node locs f) w w' noted e =
      let texts = gather leaf (node_locs (file_node locs f)) in
      let same : find texts w ≡ w' = cc in subst Noted same (find-Noted texts w noted)
  walk_child-Noted (tree_node loc f) w w' noted e =
      let texts = gather leaf (node_locs (tree_node loc f)) in
      visit-Noted loc (find (before loc) (find texts w)) w'
        (find-Noted (before loc) (find texts w) (find-Noted texts w noted)) e

  walk_children-Noted :
      (children : List TreeChild) (w w' : Walked)
      → Noted w
      → walk_children leaf before visit children w ≡ some w'
      → Noted w'
  unfolding walk_children
  walk_children-Noted [] w w' noted e = let same : w ≡ w' = cc in subst Noted same noted
  walk_children-Noted (child ∷ children) w w' noted e =
      elim (Option-cases (walk_child leaf before visit child.node w)) [
        | inl none_e ↦
            let e0 : ◌≡◌ {A = Option Walked} none (some w') = rw (none_e, walk_children) at e in
            absurd cc
        | inr (w1, some_e) ↦
            let e1 : walk_children leaf before visit children w1 ≡ some w' =
              rw (some_e, walk_children) at e in
            walk_children-Noted children w1 w' (walk_child-Noted child.node w w1 noted some_e) e1
      ]

  pub expand-Noted :
      (fetch : TreeLoc → Option Tree) (loc_of : BlobLoc → TreeLoc) (loc : TreeLoc) (w w' : Walked)
      → Noted w
      → expand fetch loc_of leaf before visit loc w ≡ some w'
      → Noted w'
  unfolding expand
  expand-Noted fetch loc_of loc w w' noted e = elim (Option-cases (fetch loc)) [
    | inl none_e ↦
        let e1 : some w ≡ some w' = rw (none_e, expand) at e in
        let same : w ≡ w' = cc in subst Noted same noted
    | inr (t, some_e) ↦ walk_children-Noted t.children w w' noted (rw (some_e, expand) at e)
  ]

module _ (fetch : TreeLoc → Option Tree) (loc_of : BlobLoc → TreeLoc)
    (leaf before : BlobLoc → List Text) where
  pub walk-Noted :
      (fuel : ℕ) (loc : TreeLoc) (w w' : Walked)
      → Noted w
      → walk fetch loc_of
          (record { leaf = leaf; before = before; enter = λ l. l.bid ∷ [] })
          fuel
          loc
          w
        ≡ some w'
      → Noted w'
  unfolding walk
  walk-Noted zero loc w w' noted e = absurd cc
  walk-Noted (suc fuel) loc w w' noted e = elim (Bool-cases (mem_text loc.bid w.seen)) [
    | inl again ↦
        let e1 : some w ≡ some w' = rw (again, walk) at e in
        let same : w ≡ w' = cc in subst Noted same noted
    | inr new ↦
        expand-Noted leaf before _ (λ sub u u' n q. walk-Noted fuel (loc_of sub) u u' n q) fetch
          loc_of loc (mark (loc.bid ∷ []) loc w) w' (mark-Noted loc w noted) (rw (new, walk) at e)
  ]
