-- ===== src/Wire/RoundTrip/Tree.antt =====
-- The round trip of nodes and trees, and what it gives for bytes that are written again.
use arq_backup_tui.Common.{
  ℕ, ◌^◌, ◌<◌, ◌≡◌, true, false, some, List, [], ◌∷◌, ◌++◌, All, length, arith,
}
use arq_backup_tui.Common.Result.{ok}
use arq_backup_tui.Wire.Types.{Node, file_node, tree_node, TreeChild, Tree}
use arq_backup_tui.Wire.Serialize.{write_node, write_child, write_children, write_tree}
use arq_backup_tui.Wire.Parse.{
  or_empty, parse_many, parse_node, parse_node_kind, parse_file_node, parse_tree_node, parse_child,
  tree_parser, parse_tree,
}
use arq_backup_tui.Wire.RoundTrip.Rules.{
  Roundtrips, Roundtrips-pure, Roundtrips-bind, Roundtrips-map, Roundtrips-bool, Roundtrips-uint32,
  Roundtrips-uint64, Roundtrips-string,
}
use arq_backup_tui.Wire.RoundTrip.Stored.{
  NodeInRange, TreeInRange, stored_node, stored_child, stored_children, stored_tree,
}
use arq_backup_tui.Wire.RoundTrip.Fields.{
  Roundtrips-blobloc, Roundtrips-counted_bloblocs, Roundtrips-fields,
}

Roundtrips-node :
    (version : ℕ) (n : Node)
    → NodeInRange n
    → Roundtrips (parse_node version) (write_node version n) (stored_node version n)
unfolding parse_node parse_node_kind parse_file_node parse_tree_node write_node stored_node
Roundtrips-node version (file_node locs f) (rl, r) = Roundtrips-bind _ (Roundtrips-bool false) (
    Roundtrips-bind _ (Roundtrips-uint32 f.computer_os_type r.computer_os_type) (
      Roundtrips-bind _ (Roundtrips-counted_bloblocs locs rl)
        (Roundtrips-bind _ (Roundtrips-fields version f r) (Roundtrips-pure _))))
Roundtrips-node version (tree_node loc f) (rl, r) = Roundtrips-bind _ (Roundtrips-bool true) (
    Roundtrips-bind _ (Roundtrips-blobloc loc rl) (
      Roundtrips-bind _ (Roundtrips-uint32 f.computer_os_type r.computer_os_type) (
        Roundtrips-bind _ (Roundtrips-counted_bloblocs [] (omega arith, tt))
          (Roundtrips-bind _ (Roundtrips-fields version f r) (Roundtrips-pure _)))))

Roundtrips-child :
    (version : ℕ) (c : TreeChild)
    → NodeInRange c.node
    → Roundtrips (parse_child version) (write_child version c) (stored_child version c)
unfolding parse_child write_child or_empty
Roundtrips-child version c r = Roundtrips-bind _ (Roundtrips-string (some c.name)) (
    Roundtrips-map
      (λ (n : Node). let child : TreeChild = record { name = c.name; node = n } in child)
      (Roundtrips-node version c.node r))

Roundtrips-children :
    (version : ℕ) (cs : List TreeChild)
    → All (λ (c : TreeChild). NodeInRange c.node) cs
    → Roundtrips
        (parse_many (parse_child version) (length cs))
        (write_children version cs)
        (stored_children version cs)
unfolding parse_many write_children stored_children
Roundtrips-children version [] r = Roundtrips-pure []
Roundtrips-children version (c ∷ cs) (r, rs) =
    Roundtrips-bind _ (Roundtrips-child version c r)
      (Roundtrips-map (λ xs. stored_child version c ∷ xs) (Roundtrips-children version cs rs))

pub Roundtrips-tree :
    (version : ℕ) (t : Tree)
    → version < 2 ^ 32
    → TreeInRange t
    → Roundtrips tree_parser (write_tree version t) (stored_tree version t)
unfolding tree_parser write_tree stored_tree
Roundtrips-tree version t hv (short, rs) = Roundtrips-bind _ (Roundtrips-uint32 version hv) (
    Roundtrips-bind _ (Roundtrips-uint64 (length t.children) short)
      (Roundtrips-bind _ (Roundtrips-children version t.children rs) (Roundtrips-pure _)))

-- A tree that was written, with whatever follows it, reads back as the tree, but that it has the fields of
-- its version only, a trailing block as it was written, and 0 in the two fields that give the time of the
-- scan to the writer. The version, every unsigned field and every count are in the range of their widths.
pub parse_tree-write_tree :
    (version : ℕ) (t : Tree) (bs rest : List ℕ)
    → version < 2 ^ 32
    → TreeInRange t
    → write_tree version t ≡ ok bs
    → parse_tree (bs ++ rest) ≡ ok (stored_tree version t)
unfolding parse_tree
parse_tree-write_tree version t bs rest hv r e = rw ((Roundtrips-tree version t hv r).at bs e rest)
