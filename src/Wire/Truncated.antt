-- ===== src/Wire/Truncated.antt =====
-- The parsers of arq_reader/parse.py on input that is cut short.
use arq_backup_tui.Common.{
  ℕ, zero, suc, ◌^◌, ◌<◌, ◌≡◌, refl, Bool, true, false, none, List, [], ◌∷◌, ◌++◌, append-nil,
  arith,
}
use arq_backup_tui.Common.Result.{Result, ok, err}
use arq_backup_tui.Wire.Errors.{ParseError, unexpected_eof, bad_string_flag}
use arq_backup_tui.Wire.Types.{Tree}
use arq_backup_tui.Wire.Serialize.{write_tree}
use arq_backup_tui.Wire.Reader.{Parser}
use arq_backup_tui.Wire.Parse.{
  parse_many, parse_blobloc, parse_when, parse_optional_blobloc, parse_counted_bloblocs,
  parse_reparse, parse_v4_block, parse_fields, parse_file_node, parse_tree_node, parse_node_kind,
  parse_node, parse_child, tree_parser, parse_tree,
}
use arq_backup_tui.Wire.RoundTrip.Stored.{TreeInRange, stored_tree}
use arq_backup_tui.Wire.RoundTrip.Tree.{Roundtrips-tree}
use arq_backup_tui.Wire.Stable.{
  IsStable, IsStable-pure, IsStable-bind, IsStable-if, IsStable-raw, IsStable-bool, IsStable-uint32,
  IsStable-uint64, IsStable-int32, IsStable-int64, IsStable-string,
}

IsStable-many : {A : Type 0} (p : Parser A) (count : ℕ) → IsStable p → IsStable (parse_many p count)
unfolding parse_many
IsStable-many p zero s = IsStable-pure []
IsStable-many p (suc count) s =
    IsStable-bind _ _ s λ _. IsStable-bind _ _ (IsStable-many p count s) λ _. IsStable-pure _

IsStable-when : {A : Type 0} (b : Bool) (p : Parser A) → IsStable p → IsStable (parse_when b p)
unfolding parse_when
IsStable-when true p s = IsStable-bind _ _ s λ _. IsStable-pure _
IsStable-when false p s = IsStable-pure none

IsStable-blobloc : IsStable parse_blobloc
unfolding parse_blobloc
IsStable-blobloc = IsStable-bind _ _ IsStable-string λ _. IsStable-bind _ _ IsStable-bool λ _.
    IsStable-bind _ _ IsStable-bool λ _. IsStable-bind _ _ IsStable-string λ _.
      IsStable-bind _ _ IsStable-uint64 λ _. IsStable-bind _ _ IsStable-uint64 λ _.
        IsStable-bind _ _ IsStable-bool λ _. IsStable-bind _ _ IsStable-uint32 λ _. IsStable-pure _

IsStable-counted_bloblocs : IsStable parse_counted_bloblocs
unfolding parse_counted_bloblocs
IsStable-counted_bloblocs =
    IsStable-bind _ _ IsStable-uint64 λ count. IsStable-many parse_blobloc count IsStable-blobloc

IsStable-optional_blobloc : IsStable parse_optional_blobloc
unfolding parse_optional_blobloc
IsStable-optional_blobloc =
    IsStable-bind _ _ IsStable-bool λ present. IsStable-when present parse_blobloc IsStable-blobloc

IsStable-reparse : (version : ℕ) → IsStable (parse_reparse version)
unfolding parse_reparse
IsStable-reparse version =
    IsStable-if _ _ _
      (IsStable-bind _ _ IsStable-uint32 λ _. IsStable-bind _ _ IsStable-bool λ _. IsStable-pure _)
      (IsStable-pure _)

IsStable-v4_block : (version : ℕ) → IsStable (parse_v4_block version)
unfolding parse_v4_block
IsStable-v4_block version = IsStable-if _ _ _ (IsStable-raw _) (IsStable-pure _)

IsStable-fields : (version computer_os : ℕ) → IsStable (parse_fields version computer_os)
unfolding parse_fields
IsStable-fields version computer_os = IsStable-bind _ _ IsStable-optional_blobloc λ _.
    IsStable-bind _ _ IsStable-counted_bloblocs λ _. IsStable-bind _ _ IsStable-uint64 λ _.
      IsStable-bind _ _ IsStable-uint64 λ _. IsStable-bind _ _ IsStable-int64 λ _.
        IsStable-bind _ _ IsStable-int64 λ _. IsStable-bind _ _ IsStable-int64 λ _.
          IsStable-bind _ _ IsStable-int64 λ _. IsStable-bind _ _ IsStable-int64 λ _.
            IsStable-bind _ _ IsStable-int64 λ _. IsStable-bind _ _ IsStable-string λ _.
              IsStable-bind _ _ IsStable-string λ _. IsStable-bind _ _ IsStable-bool λ _.
                IsStable-bind _ _ IsStable-int32 λ _. IsStable-bind _ _ IsStable-uint64 λ _.
                  IsStable-bind _ _ IsStable-uint32 λ _. IsStable-bind _ _ IsStable-uint32 λ _.
                    IsStable-bind _ _ IsStable-uint32 λ _. IsStable-bind _ _ IsStable-uint32 λ _.
                      IsStable-bind _ _ IsStable-int32 λ _. IsStable-bind _ _ IsStable-int32 λ _.
                        IsStable-bind _ _ IsStable-uint32 λ _.
                          IsStable-bind _ _ (IsStable-reparse version)
                            λ _. IsStable-bind _ _ (IsStable-v4_block version) λ _. IsStable-pure _

IsStable-node : (version : ℕ) → IsStable (parse_node version)
unfolding parse_node parse_node_kind parse_file_node parse_tree_node
IsStable-node version = IsStable-bind _ _ IsStable-bool λ is_tree.
    IsStable-if is_tree _ _
      (IsStable-bind _ _ IsStable-blobloc λ _. IsStable-bind _ _ IsStable-uint32 λ os.
        IsStable-bind _ _ IsStable-counted_bloblocs
          λ _. IsStable-bind _ _ (IsStable-fields version os) λ _. IsStable-pure _)
      (IsStable-bind _ _ IsStable-uint32 λ os.
        IsStable-bind _ _ IsStable-counted_bloblocs
          λ _. IsStable-bind _ _ (IsStable-fields version os) λ _. IsStable-pure _)

IsStable-child : (version : ℕ) → IsStable (parse_child version)
unfolding parse_child
IsStable-child version =
    IsStable-bind _ _ IsStable-string
      λ _. IsStable-bind _ _ (IsStable-node version) λ _. IsStable-pure _

IsStable-tree : IsStable tree_parser
unfolding tree_parser
IsStable-tree = IsStable-bind _ _ IsStable-uint32 λ version.
    IsStable-bind _ _ IsStable-uint64 λ count.
      IsStable-bind _ _ (IsStable-many (parse_child version) count (IsStable-child version))
        λ _. IsStable-pure _

append-ne-nil : (xs : List ℕ) (y : ℕ) (ys : List ℕ) → xs ++ y ∷ ys ≡ [] → ⊥
append-ne-nil [] y ys h = cc
append-ne-nil (x ∷ xs) y ys h = cc

truncated_result :
    (front : List ℕ) (x : ℕ) (back : List ℕ) (t : Tree) (r : Result ParseError (Tree × List ℕ))
    → tree_parser (front ++ x ∷ back) ≡ ok (t, [])
    → tree_parser front ≡ r
    → r ≡ err unexpected_eof
truncated_result front x back t (ok (t', rest)) whole e =
    let longer = IsStable-tree.on_ok front (x ∷ back) t' rest e in
    absurd (append-ne-nil rest x back (ground (arith, longer, whole)))
truncated_result front x back t (err unexpected_eof) whole e = refl
truncated_result front x back t (err bad_string_flag) whole e =
    cc (whole, IsStable-tree.on_flag front (x ∷ back) e)

-- Every proper prefix of a written tree is refused, as input that ended too early.
pub parse_tree_truncated :
    (version : ℕ) (t : Tree) (front : List ℕ) (x : ℕ) (back : List ℕ)
    → version < 2 ^ 32
    → TreeInRange t
    → write_tree version t ≡ ok (front ++ x ∷ back)
    → parse_tree front ≡ err unexpected_eof
unfolding parse_tree
parse_tree_truncated version t front x back hv r e = rw (
    truncated_result front x back (stored_tree version t) _
      (rw append-nil at ((Roundtrips-tree version t hv r).at (front ++ x ∷ back) e [])) refl)
