-- ===== src/Gc/Ends.antt =====
-- `gc_orphan_blobs` ends: with enough fuel no collection of a computer is cut off.
use arq_backup_tui.Common.{
  arith, ℕ, ◌≡◌, refl, ◌<◌, ◌≢◌, Option, none, some, Option-cases, List, [], ◌∷◌, All, inl, inr,
  Bool-cases, length, Has, mem_text,
}
use arq_backup_tui.Common.Result.{Result, ok, err, ◌>>=◌}
use arq_backup_tui.Wire.Types.{Text, BlobLoc}
use arq_backup_tui.Crypto.Primitives.{Primitives}
use arq_backup_tui.Crypto.Keyset.{Keyset}
use arq_backup_tui.Pack.Builder.{codes}
use arq_backup_tui.Backend.{Backend}
use arq_backup_tui.Record.Values.{Value, list, dict, Values, nil, cons, Fields, get_field, Python}
use arq_backup_tui.Layout.Paths.{backupfolders_dir, join, computer_root}
use arq_backup_tui.Layout.Records.{list_backuprecords}
use arq_backup_tui.Gc.Walk.{
  Failure, raised, stuck, or_raise, or_stuck, TreeLoc, Walked, find, walk, mark, fetch_tree,
  loc_of_blobloc, loc_of_dict, bid_of_dict, id_of, ids, pack_paths, walk_tree_collect,
  walk_tree_collect_blobloc, walk_tree_collect_pack_paths,
}
use arq_backup_tui.Gc.Collect.{
  add_blob, add_pack_path, items_of, fields_of, add_items, record_at, collect_tree, collect_node,
  collect_parsed, collect_record, collect_records, collect_folders, collect,
  collect_referenced_blobs, collect_live_pack_paths,
}
use arq_backup_tui.Gc.OnRecords.{OnDict, OnNode, OnRecord, OnFolder, EachRecord, or_raise_ok}
use arq_backup_tui.Gc.Live.{Live, HasPlaces}
use arq_backup_tui.Gc.Complete.{IsRoot, subtrees-IsLive, roots-good}
use arq_backup_tui.Gc.Total.{unseen, unseen-le-length, walk-total, expand-total}

abbrev pub NotStuck {ℓ} : {A : Type ℓ} → Result Failure A → Type ℓ
NotStuck r = r ≢ err stuck

bind-NotStuck {ℓ κ} :
    {A : Type ℓ} {B : Type κ} (r : Result Failure A) (f : A → Result Failure B)
    → NotStuck r
    → ((a : A) → r ≡ ok a → NotStuck (f a))
    → NotStuck (r >>= f)
bind-NotStuck (ok a) f h g = g a refl
bind-NotStuck (err raised) f h g = λ e. cc
bind-NotStuck (err stuck) f h g = absurd (h refl)

or_raise-NotStuck {ℓ} : {A : Type ℓ} (o : Option A) → NotStuck (or_raise o)
unfolding or_raise
or_raise-NotStuck none = λ e. cc
or_raise-NotStuck (some a) = λ e. cc

or_stuck-NotStuck {ℓ} : {A : Type ℓ} (o : Option A) (a : A) → o ≡ some a → NotStuck (or_stuck o)
unfolding or_stuck
or_stuck-NotStuck none a e = cc
or_stuck-NotStuck (some c) a e = λ g. cc

items_of-NotStuck : (py : Python) (v : Value) → NotStuck (items_of py v)
unfolding items_of
items_of-NotStuck py (list vs) = λ e. cc
items_of-NotStuck py other = λ e. ground arith

add_items-NotStuck :
    (add : Fields → List Text) (vs : Values) (w : Walked) → NotStuck (add_items add vs w)
unfolding add_items fields_of
add_items-NotStuck add nil w = λ e. cc
add_items-NotStuck add (cons (dict d) vs) w = add_items-NotStuck add vs (find (add d) w)
add_items-NotStuck add (cons other vs) w = λ e. cc

module _ {State : Type 0} (b : Backend State) (p : Primitives) (py : Python) (keyset : Keyset)
    (s : State) (add : Fields → List Text) (walk_from : Fields → Walked → Result Failure Walked)
    (Good : Fields → Type 0)
    (ends : (d : Fields) (w : Walked) → Good d → NotStuck (walk_from d w)) where
  collect_tree-NotStuck :
      (v : Value) (w : Walked) → OnDict Good v → NotStuck (collect_tree add walk_from v w)
  unfolding collect_tree
  collect_tree-NotStuck (dict d) w good = ends d (find (add d) w) good
  collect_tree-NotStuck other w good = λ e. cc

  collect_node-NotStuck :
      (v : Value) (w : Walked)
      → OnNode (λ d. Unit) Good v
      → NotStuck (collect_node add walk_from py v w)
  unfolding collect_node
  collect_node-NotStuck (dict node) w (u, v, good) =
      let locs = get_field node (codes "dataBlobLocs") in
      let xattrs = get_field node (codes "xattrsBlobLocs") in
      let tree = get_field node (codes "treeBlobLoc") in
      bind-NotStuck (items_of py locs) _ (items_of-NotStuck py locs) (λ items e.
        bind-NotStuck (add_items add items w) _ (add_items-NotStuck add items w) (λ w1 e1.
          bind-NotStuck (items_of py xattrs) _ (items_of-NotStuck py xattrs) (λ more e2.
            bind-NotStuck (add_items add more w1) _ (add_items-NotStuck add more w1)
              (λ w2 e3. collect_tree-NotStuck tree w2 good))))
  collect_node-NotStuck other w good = λ e. cc

  abbrev IsFine : Text → Type 0
  IsFine path = OnRecord (λ d. Unit) Good (record_at b p py keyset s path)

  collect_parsed-NotStuck :
      (r : Option Fields) (w : Walked)
      → OnRecord (λ d. Unit) Good r
      → NotStuck (collect_parsed add walk_from py r w)
  unfolding collect_parsed
  collect_parsed-NotStuck none w good = λ e. cc
  collect_parsed-NotStuck (some rec) w good =
      collect_node-NotStuck (get_field rec (codes "node")) w good

  collect_records-NotStuck :
      (paths : List Text) (w : Walked)
      → All IsFine paths
      → NotStuck (collect_records b p py keyset add walk_from s paths w)
  unfolding collect_records collect_record
  collect_records-NotStuck [] w good = λ e. cc
  collect_records-NotStuck (path ∷ paths) w (g, gs) =
      bind-NotStuck (collect_parsed add walk_from py (record_at b p py keyset s path) w) _
        (collect_parsed-NotStuck (record_at b p py keyset s path) w g)
        (λ w1 e. collect_records-NotStuck paths w1 gs)

  module _ (root cu : Text) where
    collect_folders-NotStuck :
        (folders : List Text) (w : Walked)
        → All (OnFolder b py s root cu IsFine) folders
        → NotStuck (collect_folders b p py keyset add walk_from s root cu folders w)
    unfolding collect_folders
    collect_folders-NotStuck [] w good = λ e. cc
    collect_folders-NotStuck (fu ∷ folders) w (g, gs) =
        let listed = list_backuprecords b py s root cu fu in
        bind-NotStuck (or_raise listed) _ (or_raise-NotStuck listed) (λ paths e.
          bind-NotStuck (collect_records b p py keyset add walk_from s paths w) _
            (collect_records-NotStuck paths w (g paths (or_raise_ok listed paths e)))
            (λ w1 e1. collect_folders-NotStuck folders w1 gs))

    collect-NotStuck :
        EachRecord b py s root cu IsFine → NotStuck (collect b p py keyset add walk_from s root cu)
    unfolding collect
    collect-NotStuck each =
        let bf_root = join (computer_root root cu) backupfolders_dir in
        elim (Bool-cases (b.is_dir s bf_root)) [
          | inr no_dir ↦ rw (no_dir, collect) (λ e. cc)
          | inl is_there ↦
              rw (is_there, collect)
                (bind-NotStuck (or_raise (b.list_dir s bf_root)) _
                  (or_raise-NotStuck (b.list_dir s bf_root))
                  (λ folders e.
                    bind-NotStuck
                      (collect_folders b p py keyset add walk_from s root cu folders
                        (record { seen = []; found = [] }))
                      _
                      (collect_folders-NotStuck folders _
                        (each folders is_there (or_raise_ok (b.list_dir s bf_root) folders e)))
                      (λ w e1 e2. cc)))
        ]

module _ {State : Type 0} (b : Backend State) (p : Primitives) (py : Python) (keyset : Keyset)
    (root cu : Text) (s : State) (us : List Text)
    (known : (loc : TreeLoc) → Live b p py keyset root cu s loc → Has us loc.bid)
    (places : HasPlaces b p py keyset root cu s) (fuel : ℕ) (enough : length us < fuel) where
  abbrev IsLive : TreeLoc → Type 0
  IsLive = Live b p py keyset root cu s

  abbrev no_need : BlobLoc → List Text
  no_need loc = []

  few : (w : Walked) → unseen us w.seen < fuel
  few w = omega (arith, unseen-le-length us w.seen)

  walk_ends_ids :
      (d : Fields) (w : Walked)
      → IsRoot b p py keyset root cu s d
      → NotStuck (walk_tree_collect b p py keyset s fuel d w)
  unfolding walk_tree_collect walk_tree_collect_blobloc ids or_stuck
  walk_ends_ids d w (live_of, place) = elim (Bool-cases (mem_text (bid_of_dict py d) w.seen)) [
    | inl again ↦ rw (again, walk_tree_collect) (λ e. cc)
    | inr new ↦ elim (Option-cases (loc_of_dict py d)) [
      | inl none_e ↦ rw (new, none_e, walk_tree_collect) (λ e. cc)
      | inr (loc, some_e) ↦
          let (w', e, h) =
            expand-total (id_of py) (id_of py)
              (λ sub.
                walk (fetch_tree b p keyset s) (loc_of_blobloc py) (ids py) fuel
                  (loc_of_blobloc py sub))
              (λ sub. IsLive (loc_of_blobloc py sub)) us (length us)
              (λ sub v live l.
                let (v', e', l') =
                  walk-total (fetch_tree b p keyset s) (loc_of_blobloc py) IsLive us known
                    (subtrees-IsLive b p py keyset root cu s no_need no_need) (ids py) fuel
                    (loc_of_blobloc py sub) v live (few v) in
                (v', e', unseen-le-length us v'.seen))
              (fetch_tree b p keyset s) (loc_of_blobloc py) loc (mark [] loc w)
              (λ t.
                subtrees-IsLive b p py keyset root cu s no_need no_need loc t (live_of loc some_e))
              (unseen-le-length us (mark [] loc w).seen) in
          rw (new, some_e, walk_tree_collect) (or_stuck-NotStuck _ w' e)
    ]
  ]

  walk_ends_paths :
      (d : Fields) (w : Walked)
      → IsRoot b p py keyset root cu s d
      → NotStuck (walk_tree_collect_pack_paths b p py keyset s fuel d w)
  unfolding walk_tree_collect_pack_paths or_stuck
  walk_ends_paths d w (live_of, place) = elim (Option-cases (loc_of_dict py d)) [
    | inl none_e ↦ rw (none_e, walk_tree_collect_pack_paths) (λ e. cc)
    | inr (loc, some_e) ↦
        let (w', e, h) =
          walk-total (fetch_tree b p keyset s) (loc_of_blobloc py) IsLive us known
            (subtrees-IsLive b p py keyset root cu s no_need no_need) pack_paths fuel loc w
            (live_of loc some_e) (few w) in
        rw (some_e, e, walk_tree_collect_pack_paths) (λ g. cc)
  ]

  pub collect_referenced_blobs-ends :
      NotStuck (collect_referenced_blobs b p py keyset s fuel root cu)
  unfolding collect_referenced_blobs
  collect_referenced_blobs-ends =
      collect-NotStuck b p py keyset s (add_blob py) (walk_tree_collect b p py keyset s fuel)
        (IsRoot b p py keyset root cu s) walk_ends_ids root cu
        (roots-good b p py keyset root cu s places)

  pub collect_live_pack_paths-ends : NotStuck (collect_live_pack_paths b p py keyset s fuel root cu)
  unfolding collect_live_pack_paths
  collect_live_pack_paths-ends =
      collect-NotStuck b p py keyset s (add_pack_path py)
        (walk_tree_collect_pack_paths b p py keyset s fuel) (IsRoot b p py keyset root cu s)
        walk_ends_paths root cu (roots-good b p py keyset root cu s places)
