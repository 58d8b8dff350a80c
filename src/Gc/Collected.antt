-- ===== src/Gc/Collected.antt =====
-- What `_collect_referenced_blobs` and `_collect_live_pack_paths` have found when they return.
use arq_backup_tui.Common.{◌≡◌, subst, Option, none, some, List, [], ◌∷◌, inl, inr, All, Bool-cases}
use arq_backup_tui.Common.Result.{Result, ok, ◌>>=◌, bind_returned}
use arq_backup_tui.Wire.Types.{Text}
use arq_backup_tui.Crypto.Primitives.{Primitives}
use arq_backup_tui.Crypto.Keyset.{Keyset}
use arq_backup_tui.Pack.Builder.{codes}
use arq_backup_tui.Backend.{Backend}
use arq_backup_tui.Record.Values.{
  Value, null, bool, int, text, list, dict, opaque, Values, nil, cons, Fields, get_field, Python,
}
use arq_backup_tui.Layout.Paths.{backupfolders_dir, join, computer_root}
use arq_backup_tui.Layout.Records.{list_backuprecords}
use arq_backup_tui.Gc.Walk.{Failure, or_raise, Walked, find}
use arq_backup_tui.Gc.Collect.{
  items_of, fields_of, add_items, record_at, collect_tree, collect_node, collect_parsed,
  collect_record, collect_records, collect_folders, collect,
}
use arq_backup_tui.Gc.Closed.{
  AllHas, AllHas-mono, Grows, Grows-refl, Grows-trans, find-Grows, find-AllHas,
}
use arq_backup_tui.Gc.OnRecords.{
  AllDicts, OnItems, OnDict, OnNode, OnRecord, or_raise_ok, OnFolder, EachRecord, AllDicts-mono,
  OnRecord-mono,
}

items-OnItems :
    (py : Python) (Q : Fields → Type 0) (value : Value) (vs : Values)
    → items_of py value ≡ ok vs
    → AllDicts Q vs
    → OnItems Q value
unfolding items_of
items-OnItems py Q (list us) vs e h = let same : vs ≡ us = cc in subst (AllDicts Q) same h
items-OnItems py Q (dict d) vs e h = tt
items-OnItems py Q null vs e h = tt
items-OnItems py Q (bool b) vs e h = tt
items-OnItems py Q (int z) vs e h = tt
items-OnItems py Q (text x) vs e h = tt
items-OnItems py Q (opaque n) vs e h = tt

-- `J` is an invariant of the walk, and `T` what a walk from a dict leaves behind.
module _ {State : Type 0} (b : Backend State) (p : Primitives) (py : Python) (keyset : Keyset)
    (s : State) (add : Fields → List Text) (walk : Fields → Walked → Result Failure Walked)
    (Good : Fields → Type 0) (J : Walked → Type 0) (T : Walked → Fields → Type 0)
    (J-find : (texts : List Text) (w : Walked) → J w → J (find texts w))
    (T-mono : (w w' : Walked) (d : Fields) → Grows w w' → T w d → T w' d)
    (walked : (d : Fields) (w w' : Walked)
      → Good d
      → J w
      → AllHas w.found (add d)
      → walk d w ≡ ok w'
      → Grows w w' × J w' × T w' d) where
  abbrev Added : Walked → Fields → Type 0
  Added w d = AllHas w.found (add d)

  abbrev Reached : Walked → Fields → Type 0
  Reached w d = AllHas w.found (add d) × T w d

  abbrev pub Recorded : Walked → Text → Type 0
  Recorded w path = OnRecord (Added w) (Reached w) (record_at b p py keyset s path)

  Added-mono : (w w' : Walked) (d : Fields) → Grows w w' → Added w d → Added w' d
  Added-mono w w' d g h = AllHas-mono w.found w'.found (add d) g.found h

  pub Recorded-mono :
      (w w' : Walked) (path : Text) → Grows w w' → Recorded w path → Recorded w' path
  Recorded-mono w w' path g h =
      OnRecord-mono (Added w) (Added w') (Reached w) (Reached w') (λ d. Added-mono w w' d g)
        (λ d (a, t). (Added-mono w w' d g a, T-mono w w' d g t)) (record_at b p py keyset s path) h

  All-mono_records :
      (w w' : Walked) (paths : List Text)
      → Grows w w'
      → All (Recorded w) paths
      → All (Recorded w') paths
  All-mono_records w w' [] g h = tt
  All-mono_records w w' (path ∷ paths) g (h, hs) =
      (Recorded-mono w w' path g h, All-mono_records w w' paths g hs)

  add_items-Grows :
      (items : Values) (w w' : Walked)
      → J w
      → add_items add items w ≡ ok w'
      → Grows w w' × J w' × AllDicts (Added w') items
  unfolding add_items fields_of
  add_items-Grows nil w w' j e =
      let same : w ≡ w' = cc in subst (λ u. Grows w u × J u × Unit {0}) same (Grows-refl w, j, tt)
  add_items-Grows (cons (dict d) vs) w w' j e =
      let w1 = find (add d) w in
      let (g, j', h) = add_items-Grows vs w1 w' (J-find (add d) w j) e in
      (
        Grows-trans w w1 w' (find-Grows (add d) w) g,
        j',
        (Added-mono w1 w' d g (find-AllHas (add d) w), h),
      )
  add_items-Grows (cons other vs) w w' j e = absurd cc

  -- One of the two lists of a node.
  list-Grows :
      (value : Value) (w w' : Walked)
      → J w
      → (items_of py value >>= λ items. add_items add items w) ≡ ok w'
      → Grows w w' × J w' × OnItems (Added w') value
  list-Grows value w w' j e =
      let (items, e1, e2) =
        bind_returned (items_of py value) (λ items. add_items add items w) w' e in
      let (g, j', h) = add_items-Grows items w w' j e2 in
      (g, j', items-OnItems py (Added w') value items e1 h)

  collect_tree-Grows :
      (value : Value) (w w' : Walked)
      → J w
      → OnDict Good value
      → collect_tree add walk value w ≡ ok w'
      → Grows w w' × J w' × OnDict (Reached w') value
  unfolding collect_tree
  collect_tree-Grows (dict d) w w' j good e =
      let w1 = find (add d) w in
      let (g, j', t) = walked d w1 w' good (J-find (add d) w j) (find-AllHas (add d) w) e in
      (
        Grows-trans w w1 w' (find-Grows (add d) w) g,
        j',
        (Added-mono w1 w' d g (find-AllHas (add d) w), t),
      )
  collect_tree-Grows other w w' j good e =
      let same : w ≡ w' = cc in subst (λ u. Grows w u × J u × Unit {0}) same (Grows-refl w, j, tt)

  collect_node-Grows :
      (value : Value) (w w' : Walked)
      → J w
      → OnNode (λ d. Unit) Good value
      → collect_node add walk py value w ≡ ok w'
      → Grows w w' × J w' × OnNode (Added w') (Reached w') value
  unfolding collect_node
  collect_node-Grows (dict node) w w' j (u, v, good) e =
      let locs = get_field node (codes "dataBlobLocs") in
      let xattrs = get_field node (codes "xattrsBlobLocs") in
      let tree = get_field node (codes "treeBlobLoc") in
      let (items, i1, e1) = bind_returned (items_of py locs) _ w' e in
      let (w1, i2, e2) = bind_returned (add_items add items w) _ w' e1 in
      let (more, i3, e3) = bind_returned (items_of py xattrs) _ w' e2 in
      let (w2, i4, e4) = bind_returned (add_items add more w1) _ w' e3 in
      let (g1, j1, h1) = add_items-Grows items w w1 j i2 in
      let (g2, j2, h2) = add_items-Grows more w1 w2 j1 i4 in
      let (g3, j3, h3) = collect_tree-Grows tree w2 w' j2 good e4 in
      let g4 = Grows-trans w1 w2 w' g2 g3 in
      (
        Grows-trans w w1 w' g1 g4,
        j3,
        (
          items-OnItems py (Added w') locs items i1 (
              AllDicts-mono (Added w1) (Added w') (Added w1) (Added w1) (λ d. Added-mono w1 w' d g4)
                (λ d t. t) items h1),
          items-OnItems py (Added w') xattrs more i3 (
              AllDicts-mono (Added w2) (Added w') (Added w2) (Added w2) (λ d. Added-mono w2 w' d g3)
                (λ d t. t) more h2),
          h3,
        ),
      )
  collect_node-Grows other w w' j good e =
      let same : w ≡ w' = cc in subst (λ u. Grows w u × J u × Unit {0}) same (Grows-refl w, j, tt)

  abbrev pub IsGood : Text → Type 0
  IsGood path = OnRecord (λ d. Unit) Good (record_at b p py keyset s path)

  collect_parsed-Grows :
      (r : Option Fields) (w w' : Walked)
      → J w
      → OnRecord (λ d. Unit) Good r
      → collect_parsed add walk py r w ≡ ok w'
      → Grows w w' × J w' × OnRecord (Added w') (Reached w') r
  unfolding collect_parsed
  collect_parsed-Grows none w w' j good e =
      let same : w ≡ w' = cc in subst (λ u. Grows w u × J u × Unit {0}) same (Grows-refl w, j, tt)
  collect_parsed-Grows (some rec) w w' j good e =
      collect_node-Grows (get_field rec (codes "node")) w w' j good e

  collect_records-Grows :
      (paths : List Text) (w w' : Walked)
      → J w
      → All IsGood paths
      → collect_records b p py keyset add walk s paths w ≡ ok w'
      → Grows w w' × J w' × All (Recorded w') paths
  unfolding collect_records collect_record
  collect_records-Grows [] w w' j good e =
      let same : w ≡ w' = cc in subst (λ u. Grows w u × J u × Unit {0}) same (Grows-refl w, j, tt)
  collect_records-Grows (path ∷ paths) w w' j (g, gs) e =
      let (w1, e1, e2) = bind_returned (collect_record b p py keyset add walk s path w) _ w' e in
      let (g1, j1, h1) = collect_parsed-Grows (record_at b p py keyset s path) w w1 j g e1 in
      let (g2, j2, h2) = collect_records-Grows paths w1 w' j1 gs e2 in
      (Grows-trans w w1 w' g1 g2, j2, (Recorded-mono w1 w' path g2 h1, h2))

  module _ (root cu : Text) where
    collect_folders-Grows :
        (folders : List Text) (w w' : Walked)
        → J w
        → All (OnFolder b py s root cu IsGood) folders
        → collect_folders b p py keyset add walk s root cu folders w ≡ ok w'
        → Grows w w' × J w' × All (OnFolder b py s root cu (Recorded w')) folders
    unfolding collect_folders
    collect_folders-Grows [] w w' j good e =
        let same : w ≡ w' = cc in subst (λ u. Grows w u × J u × Unit {0}) same (Grows-refl w, j, tt)
    collect_folders-Grows (fu ∷ folders) w w' j (g, gs) e =
        let (paths, e1, e2) =
          bind_returned (or_raise (list_backuprecords b py s root cu fu)) _ w' e in
        let (w1, e3, e4) =
          bind_returned (collect_records b p py keyset add walk s paths w) _ w' e2 in
        let listed : list_backuprecords b py s root cu fu ≡ some paths = or_raise_ok _ paths e1 in
        let (g1, j1, h1) = collect_records-Grows paths w w1 j (g paths listed) e3 in
        let (g2, j2, h2) = collect_folders-Grows folders w1 w' j1 gs e4 in
        let here_too : OnFolder b py s root cu (Recorded w') fu = λ ps e5.
          let same : paths ≡ ps = cc in
          subst (All (Recorded w')) same (All-mono_records w1 w' paths g2 h1) in
        (Grows-trans w w1 w' g1 g2, j2, (here_too, h2))

    -- A collection that returns has kept the invariant, and has recorded every record of the computer.
    pub collect-Recorded :
        (found : List Text)
        → J (record { seen = []; found = [] })
        → EachRecord b py s root cu IsGood
        → collect b p py keyset add walk s root cu ≡ ok found
        → (w : Walked) × (w.found ≡ found) × J w × EachRecord b py s root cu (Recorded w)
    unfolding collect
    collect-Recorded found j good e =
        let bf_root = join (computer_root root cu) backupfolders_dir in
        let start : Walked = record { seen = []; found = [] } in
        elim (Bool-cases (b.is_dir s bf_root)) [
          | inr no_dir ↦
              let e1 : ok [] ≡ ok found = rw (no_dir, collect) at e in
              (start, cc, j, λ folders dir listed. absurd cc)
          | inl is_there ↦
              let e1 : (or_raise (b.list_dir s bf_root) >>= λ folders.
              collect_folders b p py keyset add walk s root cu folders start >>= λ w. ok w.found)
                  ≡ ok found =
                rw (is_there, collect) at e in
              let (folders, i1, e2) = bind_returned (or_raise (b.list_dir s bf_root)) _ found e1 in
              let (w, i2, e3) =
                bind_returned (collect_folders b p py keyset add walk s root cu folders start) _
                  found e2 in
              let listed : b.list_dir s bf_root ≡ some folders = or_raise_ok _ folders i1 in
              let (g, j', h) =
                collect_folders-Grows folders start w j (good folders is_there listed) i2 in
              (
                w,
                cc,
                j',
                λ others dir e4.
                    let same : folders ≡ others = cc in
                    subst (All (OnFolder b py s root cu (Recorded w))) same h,
              )
        ]
