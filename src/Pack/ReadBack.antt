-- ===== src/Pack/ReadBack.antt =====
-- Every location that `PackBuilder.add` returns reads back, after `close`, as the first blob that was
-- added under its id.
use arq_backup_tui.Common.{
  ℕ, ◌≡◌, refl, sym, ap, subst, ==_iff, ◌∙◌, true, Option, none, some, List, [], ◌∷◌, ◌++◌, arith,
  length, length-append, ◌==◌, Bool-cases, inl, inr, list_eq, list_eq_iff, if_ind,
}
use arq_backup_tui.Common.Slices.{slice}
use arq_backup_tui.Wire.Types.{Text, BlobLoc}
use arq_backup_tui.Pack.Dict.{Dict, get, put, get-put_self}
use arq_backup_tui.Pack.Builder.{
  PackBuilder, init, flush, is_empty, make_room, location, append_blob, add, close, add_all,
  read_range,
}
use arq_backup_tui.Pack.Stored.{
  UuidLaws, Holds-slice, Stored, buffered, on_disk, IsCurrent, Stored-flush, IsCurrent-flush,
  Stored-append_blob, Stored-append_blob_new,
}

-- The blob store that a builder stands for: the first blob of an id is kept.
pub remember : Dict (List ℕ) → Text → List ℕ → Dict (List ℕ)
remember m id arqo = elim (get m id) [ some old ↦ m | none ↦ put m id arqo ]

pub first_blobs : Dict (List ℕ) → List (Text × List ℕ) → Dict (List ℕ)
first_blobs m [] = m
first_blobs m ((id, arqo) ∷ blobs) = first_blobs (remember m id arqo) blobs

empty_of_length : (xs : List ℕ) → length xs ≡ 0 → xs ≡ []
empty_of_length [] h = refl
empty_of_length (x ∷ xs) h = absurd (omega arith)

is_empty-nil : (xs : List ℕ) → is_empty xs ≡ true → xs ≡ []
unfolding is_empty
is_empty-nil [] h = refl
is_empty-nil (x ∷ xs) h = cc

module _ (uuid : ℕ → Text) (laws : UuidLaws uuid) where
  -- The cache and the store have the same ids, and each location holds its blob.
  abbrev Tracks : PackBuilder → Dict BlobLoc → Dict (List ℕ) → Type 0
  Tracks b [] [] = Unit
  Tracks b [] (x ∷ m) = ⊥
  Tracks b (x ∷ c) [] = ⊥
  Tracks b ((i, loc) ∷ c) ((j, arqo) ∷ m) =
      (i ≡ j) × (loc.blob_identifier ≡ i) × Stored uuid laws b loc arqo × Tracks b c m

  Tracks-map :
      (b b' : PackBuilder) (c : Dict BlobLoc) (m : Dict (List ℕ))
      → ((loc : BlobLoc) (arqo : List ℕ)
          → Stored uuid laws b loc arqo
          → Stored uuid laws b' loc arqo)
      → Tracks b c m
      → Tracks b' c m
  Tracks-map b b' [] [] f t = tt
  Tracks-map b b' [] (x ∷ m) f t = absurd t
  Tracks-map b b' (x ∷ c) [] f t = absurd t
  Tracks-map b b' ((i, loc) ∷ c) ((j, arqo) ∷ m) f (e, n, s, t) =
      (e, n, f loc arqo s, Tracks-map b b' c m f t)

  -- What an id finds in the cache and in the store.
  data Found (b : PackBuilder) (id : Text) (o : Option BlobLoc) (r : Option (List ℕ)) : Type 0 where
    absent : o ≡ none → r ≡ none → Found b id o r
    present :
        (loc : BlobLoc) (arqo : List ℕ)
        → o ≡ some loc
        → r ≡ some arqo
        → loc.blob_identifier ≡ id
        → Stored uuid laws b loc arqo
        → Found b id o r

  find_tracked :
      (b : PackBuilder) (id : Text) (c : Dict BlobLoc) (m : Dict (List ℕ))
      → Tracks b c m
      → Found b id (get c id) (get m id)
  unfolding get
  find_tracked b id [] [] t = absent refl refl
  find_tracked b id [] (x ∷ m) t = absurd t
  find_tracked b id (x ∷ c) [] t = absurd t
  find_tracked b id ((i, loc) ∷ c) ((j, arqo) ∷ m) (e, n, s, t) = elim (Bool-cases (list_eq j id)) [
    | inl same ↦ rw (e, same) (present loc arqo refl refl (n ∙ e ∙ (list_eq_iff j id).0 same) s)
    | inr other ↦ rw (e, other) (find_tracked b id c m t)
  ]

  record Inv (b : PackBuilder) (m : Dict (List ℕ)) : Type 0 where
    current : IsCurrent uuid laws b
    tracks : Tracks b b.cache m

  cache-flush : (b : PackBuilder) → (flush uuid b).cache ≡ b.cache
  unfolding flush
  cache-flush b = refl

  buffer-flush : (b : PackBuilder) → (flush uuid b).buffer ≡ []
  unfolding flush
  buffer-flush b = refl

  cache-make_room : (b : PackBuilder) (arqo : List ℕ) → (make_room uuid b arqo).cache ≡ b.cache
  unfolding make_room
  cache-make_room b arqo = ground (arith, cache-flush b)

  Stored-make_room :
      (b : PackBuilder) (new : List ℕ) (loc : BlobLoc) (arqo : List ℕ)
      → IsCurrent uuid laws b
      → Stored uuid laws b loc arqo
      → Stored uuid laws (make_room uuid b new) loc arqo
  unfolding make_room
  Stored-make_room b new loc arqo c s =
      if_ind (λ b'. Stored uuid laws b' loc arqo) _ (flush uuid b) b
        (Stored-flush uuid laws b loc arqo c s) s

  IsCurrent-make_room :
      (b : PackBuilder) (new : List ℕ)
      → IsCurrent uuid laws b
      → IsCurrent uuid laws (make_room uuid b new)
  unfolding make_room
  IsCurrent-make_room b new c =
      if_ind (IsCurrent uuid laws) _ (flush uuid b) b (IsCurrent-flush uuid laws b c) c

  -- What `add` does, `b'` and `loc'` being its results and `m'` the store after it: the location is that
  -- of the id's first blob, and every other stays.
  record Added (b b' : PackBuilder) (loc' : BlobLoc) (m' : Dict (List ℕ)) (id : Text) : Type 0 where
    stays :
        (loc : BlobLoc) (arqo : List ℕ) → Stored uuid laws b loc arqo → Stored uuid laws b' loc arqo
    inv : Inv b' m'
    first : List ℕ
    remembered : get m' id ≡ some first
    identifier : loc'.blob_identifier ≡ id
    stored : Stored uuid laws b' loc' first

  abbrev AddedBy : PackBuilder → Dict (List ℕ) → Text → List ℕ → Type 0
  AddedBy b m id new = Added b (add uuid b id new).0 (add uuid b id new).1 (remember m id new) id

  add_cached :
      (b : PackBuilder) (m : Dict (List ℕ)) (id : Text) (new : List ℕ) (loc : BlobLoc)
      (arqo : List ℕ)
      → Inv b m
      → get b.cache id ≡ some loc
      → get m id ≡ some arqo
      → loc.blob_identifier ≡ id
      → Stored uuid laws b loc arqo
      → AddedBy b m id new
  add_cached b m id new loc arqo v ec em n s =
      let ea : add uuid b id new ≡ (b, loc) = unfold add in rw (ec, add) in
      let er : remember m id new ≡ m = unfold remember in rw (em, remember) in
      rw (ea, er)
        (record {
          stays = λ l a t. t;
          inv = v;
          first = arqo;
          remembered = em;
          identifier = n;
          stored = s;
        })

  Tracks-append_blob :
      (b : PackBuilder) (m : Dict (List ℕ)) (id : Text) (new : List ℕ)
      → Tracks (append_blob uuid b id new).0 b.cache m
      → Tracks (append_blob uuid b id new).0 (append_blob uuid b id new).0.cache (put m id new)
  Tracks-append_blob b m id new t =
      unfold append_blob location put in (refl, refl, Stored-append_blob_new uuid laws b id new, t)

  add_new :
      (b : PackBuilder) (m : Dict (List ℕ)) (id : Text) (new : List ℕ)
      → Inv b m
      → get b.cache id ≡ none
      → get m id ≡ none
      → AddedBy b m id new
  add_new b m id new v ec em =
      let room = make_room uuid b new in
      let ea : add uuid b id new ≡ append_blob uuid room id new = unfold add in rw (ec, add) in
      let er : remember m id new ≡ put m id new = unfold remember in rw (em, remember) in
      rw (ea, er)
        (record {
          stays = λ l a t. keeps l a t;
          inv = record {
            current = unfold append_blob in IsCurrent-make_room b new v.current;
            tracks = Tracks-append_blob room m id new (
                subst (λ c. Tracks (append_blob uuid room id new).0 c m)
                  (sym (cache-make_room b new)) (Tracks-map b _ b.cache m keeps v.tracks));
          };
          first = new;
          remembered = get-put_self m id new;
          identifier = unfold append_blob location in refl;
          stored = Stored-append_blob_new uuid laws room id new;
        })
    where
      keeps :
          (l : BlobLoc) (a : List ℕ)
          → Stored uuid laws b l a
          → Stored uuid laws (append_blob uuid (make_room uuid b new) id new).0 l a
      keeps l a t =
          Stored-append_blob uuid laws (make_room uuid b new) id new l a
            (Stored-make_room b new l a v.current t)

  add_lem :
      (b : PackBuilder) (m : Dict (List ℕ)) (id : Text) (new : List ℕ)
      → Inv b m
      → AddedBy b m id new
  add_lem b m id new v =
      go (get b.cache id) (get m id) refl refl (find_tracked b id b.cache m v.tracks)
    where
      go :
          (o : Option BlobLoc) (r : Option (List ℕ))
          → get b.cache id ≡ o
          → get m id ≡ r
          → Found b id o r
          → AddedBy b m id new
      go o r eo er (absent p q) = add_new b m id new v (eo ∙ p) (er ∙ q)
      go o r eo er (present loc arqo p q n s) =
          add_cached b m id new loc arqo v (eo ∙ p) (er ∙ q) n s

  Inv-add :
      (b : PackBuilder) (m : Dict (List ℕ)) (id : Text) (new : List ℕ)
      → Inv b m
      → Inv (add uuid b id new).0 (remember m id new)
  Inv-add b m id new v = (add_lem b m id new v).inv

  Inv-add_all :
      (b : PackBuilder) (m : Dict (List ℕ)) (blobs : List (Text × List ℕ))
      → Inv b m
      → Inv (add_all uuid b blobs) (first_blobs m blobs)
  unfolding add_all first_blobs
  Inv-add_all b m [] v = v
  Inv-add_all b m ((id, new) ∷ blobs) v =
      Inv-add_all (add uuid b id new).0 (remember m id new) blobs (Inv-add b m id new v)

  Stored-add_all :
      (b : PackBuilder) (m : Dict (List ℕ)) (blobs : List (Text × List ℕ)) (loc : BlobLoc)
      (arqo : List ℕ)
      → Inv b m
      → Stored uuid laws b loc arqo
      → Stored uuid laws (add_all uuid b blobs) loc arqo
  unfolding add_all
  Stored-add_all b m [] loc arqo v s = s
  Stored-add_all b m ((id, new) ∷ blobs) loc arqo v s =
      Stored-add_all (add uuid b id new).0 (remember m id new) blobs loc arqo (Inv-add b m id new v)
        ((add_lem b m id new v).stays loc arqo s)

  Inv-init : (cu family : Text) (max compression : ℕ) → Inv (init uuid cu family max compression) []
  unfolding init
  Inv-init cu family max compression = record { current = (0, refl, refl); tracks = tt }

  read_on_disk :
      (files : Dict (List ℕ)) (loc : BlobLoc) (body arqo : List ℕ)
      → get files loc.relative_path ≡ some body
      → slice body loc.offset loc.length ≡ arqo
      → (loc.length ≡ 0 → arqo ≡ [])
      → read_range files loc.relative_path loc.offset loc.length ≡ some arqo
  unfolding read_range
  read_on_disk files loc body arqo g e z = elim (Bool-cases (loc.length == 0)) [
    | inl none_read ↦ rw (none_read, z ((==_iff loc.length 0).0 none_read))
    | inr some_read ↦ rw (some_read, g, e)
  ]

  -- Once the buffer is empty, a stored blob is read from the files.
  read_emptied :
      (b : PackBuilder) (loc : BlobLoc) (arqo : List ℕ)
      → b.buffer ≡ []
      → Stored uuid laws b loc arqo
      → read_range b.files loc.relative_path loc.offset loc.length ≡ some arqo
  read_emptied b loc arqo e (buffered p h) =
      let none_left : length arqo ≡ 0 = omega (
        arith,
        ap length (sym e ∙ h.split),
        length-append h.before (arqo ++ h.after),
        length-append arqo h.after,
      ) in
      let nothing : loc.length == 0 ≡ true = ground (arith, h.size) in
      unfold read_range in rw (nothing, empty_of_length arqo none_left)
  read_emptied b loc arqo e (on_disk i body l p g h) =
      read_on_disk b.files loc body arqo g (Holds-slice body loc arqo h)
        (λ z. empty_of_length arqo (sym h.size ∙ z))

  close_read :
      (b : PackBuilder) (loc : BlobLoc) (arqo : List ℕ)
      → IsCurrent uuid laws b
      → Stored uuid laws b loc arqo
      → read_range (close uuid b).files loc.relative_path loc.offset loc.length ≡ some arqo
  unfolding close
  close_read b loc arqo c s = elim (Bool-cases (is_empty b.buffer)) [
    | inl done ↦ rw done (read_emptied b loc arqo (is_empty-nil b.buffer done) s)
    | inr more ↦ rw more (
        read_emptied (flush uuid b) loc arqo (buffer-flush b)
          (Stored-flush uuid laws b loc arqo c s))
  ]

  -- The location that `add` returns for an id, whatever was added before it and is added after it,
  -- reads back from the files that `close` leaves as the first blob that was added under that id.
  pub read_back :
      (cu family : Text) (max compression : ℕ) (before : List (Text × List ℕ)) (id : Text)
      (arqo : List ℕ) (after : List (Text × List ℕ))
      → let b = add_all uuid (init uuid cu family max compression) before in
        let loc = (add uuid b id arqo).1 in
        let final = close uuid (add_all uuid (add uuid b id arqo).0 after) in
        (first : List ℕ) × (get (remember (first_blobs [] before) id arqo) id ≡ some first)
        × (loc.blob_identifier ≡ id)
        × (read_range final.files loc.relative_path loc.offset loc.length ≡ some first)
  read_back cu family max compression before id arqo after =
      let b = add_all uuid (init uuid cu family max compression) before in
      let m = first_blobs [] before in
      let v =
        Inv-add_all (init uuid cu family max compression) [] before
          (Inv-init cu family max compression) in
      let a = add_lem b m id arqo v in
      let loc = (add uuid b id arqo).1 in
      let b' = (add uuid b id arqo).0 in
      (
        a.first,
        a.remembered,
        a.identifier,
        close_read (add_all uuid b' after) loc a.first
            (Inv-add_all b' (remember m id arqo) after a.inv).current
            (Stored-add_all b' (remember m id arqo) after loc a.first a.inv a.stored),
      )
