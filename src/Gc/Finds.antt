-- ===== src/Gc/Finds.antt =====
-- What `_collect_referenced_blobs` and `_collect_live_pack_paths` find of the blobs that the records and the
-- trees below them name.
use arq_backup_tui.Common.{
  ℕ, ◌≡◌, sym, ◌∙◌, subst, true, Option, none, some, Option-cases, List, [], ◌∷◌, inl, inr,
  Bool-cases, mem_text, Has, not_Has-nil,
}
use arq_backup_tui.Common.Result.{ok, err}
use arq_backup_tui.Wire.Types.{Text, BlobLoc, Tree}
use arq_backup_tui.Crypto.Primitives.{Primitives}
use arq_backup_tui.Crypto.Keyset.{Keyset}
use arq_backup_tui.Backend.{Backend}
use arq_backup_tui.Record.Values.{Fields, Python}
use arq_backup_tui.Gc.Walk.{
  raised, or_stuck, TreeLoc, Walked, walk, expand, mark, fetch_tree, loc_of_blobloc, loc_of_dict,
  bid_of_dict, id_of, ids, pack_paths, pack_path_of, walk_tree_collect, walk_tree_collect_blobloc,
  walk_tree_collect_pack_paths,
}
use arq_backup_tui.Gc.Collect.{
  add_blob, add_pack_path, collect_referenced_blobs, collect_live_pack_paths,
}
use arq_backup_tui.Gc.Closed.{
  AllHas, Grows, Grows-refl, Covered-mono, Visited, expand-Visited, walk-Visited,
}
use arq_backup_tui.Gc.Noted.{Noted, find-Noted, mark-Noted_found, expand-Noted, walk-Noted}
use arq_backup_tui.Gc.Live.{
  Place, Live, place_of, Gathered, RootAcl, Named, Gathered-Named, HasPlaces, IsContentAddressed,
}
use arq_backup_tui.Gc.Places.{loc_of_dict-FromDict, place_of_dict-HasPlace}
use arq_backup_tui.Gc.Complete.{
  Closed, Invariant, IsRoot, subtrees-IsLive, Gathered-found, collected,
}

or_stuck_ok {ℓ} : {A : Type ℓ} (o : Option A) (a : A) → or_stuck o ≡ ok a → o ≡ some a
unfolding or_stuck
or_stuck_ok none a e = cc
or_stuck_ok (some c) a e = cc

abbrev no_need : BlobLoc → List Text
no_need loc = []

module _ (py : Python) where
  first_id :
      (loc : BlobLoc) (found : List Text)
      → AllHas found (id_of py loc)
      → Has found (place_of py loc).id
  unfolding id_of place_of
  first_id loc found h = h.0

  bid_id :
      (sub : BlobLoc) (found : List Text)
      → Has found (loc_of_blobloc py sub).bid
      → Has found (place_of py sub).id
  unfolding loc_of_blobloc place_of
  bid_id sub found h = h

  pack_found :
      (loc : BlobLoc) (found : List Text)
      → AllHas found (pack_path_of loc)
      → (place_of py loc).is_packed ≡ true
      → Has found (place_of py loc).path
  unfolding pack_path_of place_of
  pack_found loc found h packed =
      let h' : AllHas found (loc.relative_path ∷ []) = rw packed at h in h'.0

module _ {State : Type 0} (b : Backend State) (p : Primitives) (py : Python) (keyset : Keyset)
    (root cu : Text) (s : State) where
  abbrev fetch : TreeLoc → Option Tree
  fetch = fetch_tree b p keyset s

  abbrev IsLive : TreeLoc → Type 0
  IsLive = Live b p py keyset root cu s

  -- Closed after a visit, if before.
  Visited-Closed :
      (leaf need : BlobLoc → List Text) (k : Text) (w w' : Walked)
      → Visited (loc_of_blobloc py) leaf need fetch IsLive k w w'
      → Closed b p py keyset root cu s leaf need w
      → Closed b p py keyset root cu s leaf need w'
  Visited-Closed leaf need k w w' v closed j seen l t live same tree = elim (v.fresh j seen) [
    | inl old ↦
        Covered-mono (loc_of_blobloc py) leaf need w w' t.children v.grows
          (closed j old l t live same tree)
    | inr covered ↦ covered l t live same tree
  ]

  module _ (addressed : IsContentAddressed b p py keyset root cu s) where
    visit_ids :
        (fuel : ℕ) (sub : BlobLoc) (w w' : Walked)
        → IsLive (loc_of_blobloc py sub)
        → walk_tree_collect_blobloc b p py keyset s fuel sub w ≡ some w'
        → Visited
            (loc_of_blobloc py)
            (id_of py)
            no_need
            fetch
            IsLive
            (loc_of_blobloc py sub).bid
            w
            w'
    unfolding walk_tree_collect_blobloc ids
    visit_ids fuel sub w w' live e =
        walk-Visited fetch (loc_of_blobloc py) (ids py) no_need (λ u found h. tt) IsLive addressed
          (subtrees-IsLive b p py keyset root cu s (id_of py) no_need) fuel (loc_of_blobloc py sub)
          w w' live e

    note_ids :
        (fuel : ℕ) (sub : BlobLoc) (w w' : Walked)
        → Noted w
        → walk_tree_collect_blobloc b p py keyset s fuel sub w ≡ some w'
        → Noted w'
    unfolding walk_tree_collect_blobloc ids
    note_ids fuel sub w w' noted e =
        walk-Noted fetch (loc_of_blobloc py) (id_of py) no_need fuel (loc_of_blobloc py sub) w w'
          noted e

    walk_ids :
        (fuel : ℕ) (d : Fields) (w w' : Walked)
        → IsRoot b p py keyset root cu s d
        → Invariant b p py keyset root cu s (id_of py) no_need Noted w
        → AllHas w.found (add_blob py d)
        → walk_tree_collect b p py keyset s fuel d w ≡ ok w'
        → Grows w w'
          × Invariant b p py keyset root cu s (id_of py) no_need Noted w'
          × Has w'.seen (bid_of_dict py d)
    unfolding walk_tree_collect
    walk_ids fuel d w w' (live_of, (place, has_place)) (closed, noted) added e =
        elim (Bool-cases (mem_text (bid_of_dict py d) w.seen)) [
          | inl again ↦
              let e1 : ok w ≡ ok w' = rw (again, walk_tree_collect) at e in
              let same : w ≡ w' = cc in
              subst
                (λ u.
                  Grows w u
                  × Invariant b p py keyset root cu s (id_of py) no_need Noted u
                  × Has u.seen (bid_of_dict py d))
                same (Grows-refl w, (closed, noted), again)
          | inr new ↦ elim (Option-cases (loc_of_dict py d)) [
            | inl none_e ↦
                let e1 : err raised ≡ ok w' = rw (new, none_e, walk_tree_collect) at e in absurd cc
            | inr (loc, some_e) ↦
                let e1 : or_stuck (
                      expand fetch (loc_of_blobloc py) (id_of py) (id_of py)
                        (walk_tree_collect_blobloc b p py keyset s fuel) loc (mark [] loc w))
                    ≡ ok w' =
                  rw (new, some_e, walk_tree_collect) at e in
                let e2 = or_stuck_ok _ w' e1 in
                let v =
                  expand-Visited (loc_of_blobloc py) (id_of py) no_need fetch IsLive addressed
                    (subtrees-IsLive b p py keyset root cu s (id_of py) no_need) (id_of py)
                    (λ u found h. tt) (walk_tree_collect_blobloc b p py keyset s fuel)
                    (visit_ids fuel) [] loc w w' (live_of loc some_e) e2 in
                let from = loc_of_dict-FromDict py d loc some_e in
                let has = place_of_dict-HasPlace py d place has_place in
                let of_place : AllHas w.found (place.id ∷ []) =
                  subst (AllHas w.found) has.blob added in
                let bid_found : Has w.found loc.bid =
                  subst (Has w.found) (sym (from.bid ∙ has.bid)) of_place.0 in
                (
                  v.grows,
                  (
                    Visited-Closed (id_of py) no_need loc.bid w w' v closed,
                    expand-Noted (id_of py) (id_of py) _ (note_ids fuel) fetch (loc_of_blobloc py)
                        loc (mark [] loc w) w' (mark-Noted_found loc w bid_found noted) e2,
                  ),
                  subst (Has w'.seen) from.bid v.seen,
                )
          ]
        ]

    module _ (places : HasPlaces b p py keyset root cu s) (fuel : ℕ) where
      pub collect_referenced_blobs-Gathered :
          (referenced : List Text)
          → collect_referenced_blobs b p py keyset s fuel root cu ≡ ok referenced
          → (place : Place) → Gathered b p py keyset root cu s place
          → Has referenced place.id
      unfolding collect_referenced_blobs
      collect_referenced_blobs-Gathered referenced e place named =
          let (w, same, (closed, noted), each) =
            collected b p py keyset root cu s (id_of py) no_need (add_blob py)
              (walk_tree_collect b p py keyset s fuel) Noted find-Noted (walk_ids fuel) places
              referenced ((λ k h l t live bid tree. absurd (not_Has-nil k h)), λ k h. h) e in
          subst (λ found. Has found place.id) same
            (Gathered-found b p py keyset root cu s (id_of py) no_need (add_blob py) w closed each
              (λ pl. Has w.found pl.id)
              (λ d pl has_place h.
                let of_place : AllHas w.found (pl.id ∷ []) =
                  subst (AllHas w.found) (place_of_dict-HasPlace py d pl has_place).blob h in
                of_place.0)
              (λ loc h. first_id py loc w.found h)
              (λ sub h seen. bid_id py sub w.found (noted (loc_of_blobloc py sub).bid seen)) place
              named)

    visit_paths :
        (fuel : ℕ) (loc : TreeLoc) (w w' : Walked)
        → IsLive loc
        → walk fetch (loc_of_blobloc py) pack_paths fuel loc w ≡ some w'
        → Visited (loc_of_blobloc py) pack_path_of pack_path_of fetch IsLive loc.bid w w'
    unfolding pack_paths
    visit_paths fuel loc w w' live e =
        walk-Visited fetch (loc_of_blobloc py) pack_paths pack_path_of (λ u found h. h) IsLive
          addressed (subtrees-IsLive b p py keyset root cu s pack_path_of pack_path_of) fuel loc w
          w' live e

    walk_paths :
        (fuel : ℕ) (d : Fields) (w w' : Walked)
        → IsRoot b p py keyset root cu s d
        → Invariant b p py keyset root cu s pack_path_of pack_path_of (λ u. Unit {0}) w
        → AllHas w.found (add_pack_path py d)
        → walk_tree_collect_pack_paths b p py keyset s fuel d w ≡ ok w'
        → Grows w w'
          × Invariant b p py keyset root cu s pack_path_of pack_path_of (λ u. Unit {0}) w'
          × Has w'.seen (bid_of_dict py d)
    unfolding walk_tree_collect_pack_paths
    walk_paths fuel d w w' (live_of, root_place) (closed, nothing) added e =
        elim (Option-cases (loc_of_dict py d)) [
          | inl none_e ↦
              let e1 : err raised ≡ ok w' = rw (none_e, walk_tree_collect_pack_paths) at e in
              absurd cc
          | inr (loc, some_e) ↦
              let e1 : or_stuck (walk fetch (loc_of_blobloc py) pack_paths fuel loc w) ≡ ok w' =
                rw (some_e, walk_tree_collect_pack_paths) at e in
              let v = visit_paths fuel loc w w' (live_of loc some_e) (or_stuck_ok _ w' e1) in
              (
                v.grows,
                (Visited-Closed pack_path_of pack_path_of loc.bid w w' v closed, tt),
                subst (Has w'.seen) (loc_of_dict-FromDict py d loc some_e).bid v.seen,
              )
        ]

    module _ (places : HasPlaces b p py keyset root cu s) (fuel : ℕ) where
      pub collect_live_pack_paths-Gathered :
          (paths : List Text)
          → collect_live_pack_paths b p py keyset s fuel root cu ≡ ok paths
          → (place : Place) → Gathered b p py keyset root cu s place
          → place.is_packed ≡ true
          → Has paths place.path
      unfolding collect_live_pack_paths
      collect_live_pack_paths-Gathered paths e place named =
          let (w, same, (closed, nothing), each) =
            collected b p py keyset root cu s pack_path_of pack_path_of (add_pack_path py)
              (walk_tree_collect_pack_paths b p py keyset s fuel) (λ u. Unit {0}) (λ ts u h. tt)
              (walk_paths fuel) places paths
              ((λ k h l t live bid tree. absurd (not_Has-nil k h)), tt) e in
          subst (λ found. place.is_packed ≡ true → Has found place.path) same
            (Gathered-found b p py keyset root cu s pack_path_of pack_path_of (add_pack_path py) w
              closed each (λ pl. pl.is_packed ≡ true → Has w.found pl.path)
              (λ d pl has_place h packed.
                let of_place : AllHas w.found (pl.path ∷ []) =
                  subst (AllHas w.found)
                    ((place_of_dict-HasPlace py d pl has_place).pack_path packed) h in
                of_place.0)
              (λ loc h. pack_found py loc w.found h) (λ sub h seen. pack_found py sub w.found h)
              place named)

      -- The identifier of every blob that a record or a tree below a record names is referenced, save the ACL
      -- of a record's own node, where the collection returns, trees with one identifier are one tree, and
      -- each record's tree has an identifier of 64 characters, a path and a compression type other than 0.
      -- Records and trees that cannot be read name nothing.
      pub collect_referenced_blobs-Named :
          (referenced : List Text)
          → collect_referenced_blobs b p py keyset s fuel root cu ≡ ok referenced
          → (place : Place) → Named b p py keyset root cu s place
          → (RootAcl b p py keyset root cu s place → ⊥)
          → Has referenced place.id
      collect_referenced_blobs-Named referenced e place named no_acl =
          collect_referenced_blobs-Gathered places fuel referenced e place
            (Gathered-Named b p py keyset root cu s place named no_acl)

      -- The path of the pack of every packed blob that a record or a tree below a record names is live, save
      -- the ACL of a record's own node, where the collection returns, trees with one identifier are one tree,
      -- and each record's tree has an identifier of 64 characters, a path and a compression type other than 0.
      -- Records and trees that cannot be read name nothing.
      pub collect_live_pack_paths-Named :
          (paths : List Text)
          → collect_live_pack_paths b p py keyset s fuel root cu ≡ ok paths
          → (place : Place) → Named b p py keyset root cu s place
          → (RootAcl b p py keyset root cu s place → ⊥)
          → place.is_packed ≡ true
          → Has paths place.path
      collect_live_pack_paths-Named paths e place named no_acl =
          collect_live_pack_paths-Gathered paths e place
            (Gathered-Named b p py keyset root cu s place named no_acl)
