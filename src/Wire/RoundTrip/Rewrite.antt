-- ===== src/Wire/RoundTrip/Rewrite.antt =====
-- Writing again what was read gives the same bytes (the verbatim block of arq_writer/serialize.py).
use arq_backup_tui.Common.{
  ℕ, suc, ◌^◌, ◌<◌, ◌≡◌, refl, ap, ◌∙◌, true, List, [], ◌∷◌, append-nil, length, arith, leb,
  Bool-cases, inl, inr,
}
use arq_backup_tui.Common.Result.{ok}
use arq_backup_tui.Wire.Types.{NodeFields, Node, file_node, tree_node, TreeChild, Tree}
use arq_backup_tui.Wire.Serialize.{
  Written, ◌+=◌, write_node, write_child, write_children, write_tree, write_fields, write_reparse,
  write_v4_block, v4_trailing_block_of, tree_version_v4, v4_block_bytes,
}
use arq_backup_tui.Wire.Parse.{parse_tree}
use arq_backup_tui.Wire.RoundTrip.Rules.{append_inv}
use arq_backup_tui.Wire.RoundTrip.Stored.{
  TreeInRange, stored_reparse, stored_block, stored_fields, stored_node, stored_children,
  stored_tree,
}
use arq_backup_tui.Wire.RoundTrip.Fields.{length-v4_trailing_block_of}
use arq_backup_tui.Wire.RoundTrip.Tree.{parse_tree-write_tree}

-- Where `w` succeeds, `w'` writes the same bytes.
record Agrees (w w' : Written) : Type 0 where
  at : (bs : List ℕ) → w ≡ ok bs → w' ≡ ok bs

Agrees-refl : (w : Written) → Agrees w w
Agrees-refl w = record { at = λ bs e. e }

Agrees-append : (w w' v v' : Written) → Agrees w w' → Agrees v v' → Agrees (w += v) (w' += v')
Agrees-append w w' v v' a b = record {
  at = λ bs e.
      let (xs, ys, ex, ey, j) = append_inv w v bs e in
      unfold ◌+=◌ in rw (a.at xs ex, b.at ys ey, j);
}

keep : (w : Written) {v v' : Written} → Agrees v v' → Agrees (w += v) (w += v')
keep w {v} {v'} a = Agrees-append w w v v' (Agrees-refl w) a

Agrees-reparse :
    (version : ℕ) (f : NodeFields)
    → Agrees (write_reparse version f) (write_reparse version (stored_fields version f))
unfolding write_reparse stored_fields stored_reparse
Agrees-reparse version f = record { at = λ bs e. ground arith }

block_again :
    (g : NodeFields) (bs : List ℕ)
    → g.v4_trailing_block ≡ bs
    → length bs ≡ v4_block_bytes
    → v4_trailing_block_of g ≡ ok bs
unfolding v4_trailing_block_of
block_again g bs e h = ground arith

block-stored_fields :
    (version : ℕ) (f : NodeFields)
    → (stored_fields version f).v4_trailing_block ≡ stored_block version f
unfolding stored_fields
block-stored_fields version f = refl

stored_block_ok :
    (version : ℕ) (f : NodeFields) (bs : List ℕ)
    → leb tree_version_v4 version ≡ true
    → v4_trailing_block_of f ≡ ok bs
    → stored_block version f ≡ bs
unfolding stored_block
stored_block_ok version f bs has e = rw (has, e)

Agrees-v4_block :
    (version : ℕ) (f : NodeFields)
    → Agrees (write_v4_block version f) (write_v4_block version (stored_fields version f))
unfolding write_v4_block
Agrees-v4_block version f = record {
  at = λ bs e. elim (Bool-cases (leb tree_version_v4 version)) [
    | inl has ↦
        let e' : v4_trailing_block_of f ≡ ok bs = rw has at e in
        rw has (
          block_again (stored_fields version f) bs
            (block-stored_fields version f ∙ stored_block_ok version f bs has e')
            (length-v4_trailing_block_of f bs e'))
    | inr lacks ↦ rw lacks (rw lacks at e)
  ];
}

Agrees-fields :
    (version : ℕ) (f : NodeFields)
    → Agrees (write_fields version f) (write_fields version (stored_fields version f))
unfolding write_fields stored_fields
Agrees-fields version f = keep _ (
    keep _ (
      keep _ (
        keep _ (
          keep _ (
            keep _ (
              keep _ (
                keep _ (
                  keep _ (
                    keep _ (
                      keep _ (
                        keep _ (
                          keep _ (
                            keep _ (
                              keep _ (
                                keep _ (
                                  keep _ (
                                    keep _ (
                                      keep _ (
                                        keep _ (
                                          keep _ (
                                            keep _ (
                                              Agrees-append _ _ _ _ (Agrees-reparse version f) (
                                                Agrees-append _ _ _ _ (Agrees-v4_block version f)
                                                  (Agrees-refl _))))))))))))))))))))))))

Agrees-node :
    (version : ℕ) (n : Node)
    → Agrees (write_node version n) (write_node version (stored_node version n))
unfolding write_node stored_node stored_fields
Agrees-node version (file_node locs f) =
    keep _ (keep _ (keep _ (Agrees-append _ _ _ _ (Agrees-fields version f) (Agrees-refl _))))
Agrees-node version (tree_node loc f) =
    keep _
      (keep _ (keep _ (keep _ (Agrees-append _ _ _ _ (Agrees-fields version f) (Agrees-refl _)))))

Agrees-children :
    (version : ℕ) (cs : List TreeChild)
    → Agrees (write_children version cs) (write_children version (stored_children version cs))
unfolding write_children write_child stored_children
Agrees-children version [] = Agrees-refl _
Agrees-children version (c ∷ cs) =
    Agrees-append _ _ _ _ (keep _ (Agrees-node version c.node)) (Agrees-children version cs)

length-stored_children :
    (version : ℕ) (cs : List TreeChild) → length (stored_children version cs) ≡ length cs
unfolding stored_children
length-stored_children version [] = refl
length-stored_children version (c ∷ cs) = ap suc (length-stored_children version cs)

Agrees-tree :
    (version : ℕ) (t : Tree)
    → Agrees (write_tree version t) (write_tree version (stored_tree version t))
unfolding write_tree stored_tree
Agrees-tree version t =
    rw (length-stored_children version t.children)
      (keep _ (keep _ (Agrees-append _ _ _ _ (Agrees-children version t.children) (Agrees-refl _))))

-- The tree that a written tree is read as is written, in the version that was read, as the same bytes.
pub rewrite_identical :
    (version : ℕ) (t : Tree) (bs : List ℕ)
    → version < 2 ^ 32
    → TreeInRange t
    → write_tree version t ≡ ok bs
    → (t' : Tree) × (parse_tree bs ≡ ok t') × (write_tree t'.version t' ≡ ok bs)
rewrite_identical version t bs hv r e = (
  stored_tree version t,
  rw append-nil at (parse_tree-write_tree version t bs [] hv r e),
  unfold stored_tree in (Agrees-tree version t).at bs e,
)
