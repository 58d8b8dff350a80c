-- ===== src/Layout/Order.antt =====
-- The order in which the threads of `_enumerate_sharded_dir` end makes no difference: the pairs are sorted.
use arq_backup_tui.Common.{
  arith, ℕ, ◌≡◌, refl, Bool, true, false, ◌||◌, List, [], ◌∷◌, ◌++◌, map, leb, ◌==◌, length, inl,
  inr, Bool-cases,
}
use mathlib.Core.List.{Permᴰ}
use mathlib.Core.List.Permᴰ
use arq_backup_tui.Common.Sort.{sorted-perm, text_le, pair_le, text_le-IsOrder, pair_le-IsOrder}
use arq_backup_tui.Wire.Types.{Text}
use arq_backup_tui.Backend.{Backend}
use arq_backup_tui.Layout.Discover.{
  matching, valid_shards, or_empty_list, list_one, list_shards, listing_order,
  enumerate_sharded_dir, computer_layout, discover_layout, folder_uuids, matching_names,
}
use arq_backup_tui.Layout.Paths.{
  join, computer_root, blobpacks_dir, treepacks_dir, largeblobpacks_dir, standardobjects_dir,
  pack_name_re, standardobject_name_re, computer_uuid_re,
}

append-swap {ℓ} : {A : Type ℓ} (xs ys zs : List A) → Permᴰ (xs ++ (ys ++ zs)) (ys ++ (xs ++ zs))
append-swap [] ys zs = Permᴰ.refl (ys ++ zs)
append-swap (x ∷ xs) ys zs =
    Permᴰ.trans (Permᴰ.cons refl (append-swap xs ys zs)) (Permᴰ.symm (Permᴰ.middle x ys (xs ++ zs)))

abbrev IsShuffle : (List Text → List Text) → Type 0
IsShuffle completed = (names : List Text) → Permᴰ (completed names) names

abbrev in_turn : List Text → List Text
in_turn names = names

map-eq {ℓ κ} :
    {A : Type ℓ} {B : Type κ} (f g : A → B)
    → ((a : A) → f a ≡ g a)
    → (xs : List A) → map f xs ≡ map g xs
map-eq f g h [] = refl
map-eq f g h (x ∷ xs) = rw (h x, map-eq f g h xs) refl

module _ {State : Type 0} (b : Backend State) (completed : List Text → List Text)
    (shuffle : IsShuffle completed) (s : State) where
  list_shards-Permᴰ :
      (base : Text) (re : List (ℕ → Bool)) {xs ys : List Text}
      → Permᴰ xs ys
      → Permᴰ (list_shards b completed s base re xs) (list_shards b completed s base re ys)
  unfolding list_shards
  list_shards-Permᴰ base re Permᴰ.nil = Permᴰ.nil
  list_shards-Permᴰ base re (Permᴰ.cons {b = c} e d) = rw e (
      Permᴰ.append_left (matching re c (list_one b completed s base c))
        (list_shards-Permᴰ base re d))
  list_shards-Permᴰ base re (Permᴰ.swap {a' = a'} {b' = c'} {l = l} e f) =
      rw (e, f)
        (append-swap (matching re c' (list_one b completed s base c'))
          (matching re a' (list_one b completed s base a')) (list_shards b completed s base re l))
  list_shards-Permᴰ base re (Permᴰ.trans d₁ d₂) =
      Permᴰ.trans (list_shards-Permᴰ base re d₁) (list_shards-Permᴰ base re d₂)

  list_shards-in_turn :
      (base : Text) (re : List (ℕ → Bool)) (xs : List Text)
      → list_shards b completed s base re xs ≡ list_shards b in_turn s base re xs
  unfolding list_shards list_one
  list_shards-in_turn base re [] = refl
  list_shards-in_turn base re (x ∷ xs) = rw (list_shards-in_turn base re xs) refl

  listing_order-Permᴰ :
      (concurrency : ℕ) (xs : List Text) → Permᴰ (listing_order b completed concurrency xs) xs
  unfolding listing_order
  listing_order-Permᴰ concurrency xs = elim (Bool-cases (leb concurrency 1 || (length xs == 1))) [
    | inl one ↦ rw one (Permᴰ.refl xs)
    | inr many ↦ rw many (shuffle xs)
  ]

  listing_order-in_turn :
      (concurrency : ℕ) (xs : List Text) → listing_order b in_turn concurrency xs ≡ xs
  unfolding listing_order
  listing_order-in_turn concurrency xs = ground arith

  enumerate-in_turn :
      (base : Text) (re : List (ℕ → Bool)) (concurrency : ℕ)
      → enumerate_sharded_dir b completed s base re concurrency
        ≡ enumerate_sharded_dir b in_turn s base re concurrency
  unfolding enumerate_sharded_dir
  enumerate-in_turn base re concurrency =
      let shards = valid_shards (or_empty_list (b.list_dir s base)) in
      let order = pair_le-IsOrder text_le text_le text_le-IsOrder text_le-IsOrder in
      let same =
        sorted-perm (pair_le text_le text_le) order
          (list_shards-Permᴰ base re (listing_order-Permᴰ concurrency shards)) in
      let listed = list_shards-in_turn base re shards in
      let turn = listing_order-in_turn concurrency shards in rw (same, listed, turn) refl

  computer_layout-in_turn :
      (root : Text) (concurrency : ℕ) (enumerate_objects : Bool) (entry : Text)
      → computer_layout b completed s root concurrency enumerate_objects entry
        ≡ computer_layout b in_turn s root concurrency enumerate_objects entry
  unfolding computer_layout folder_uuids
  computer_layout-in_turn root concurrency true entry =
      let turn = λ (family : Text) (re : List (ℕ → Bool)).
        enumerate-in_turn (join (computer_root root entry) family) re concurrency in
      let blobs = turn blobpacks_dir pack_name_re in
      let trees = turn treepacks_dir pack_name_re in
      let large = turn largeblobpacks_dir pack_name_re in
      let objects = turn standardobjects_dir standardobject_name_re in
      rw (blobs, trees, large, objects) refl
  computer_layout-in_turn root concurrency false entry = refl

  -- discover_layout gives, whatever the order in which the threads of the pool end, what it gives with
  -- the shards listed one after the other.
  pub discover_layout-in_turn :
      (root : Text) (concurrency : ℕ) (enumerate_objects : Bool)
      → discover_layout b completed s root concurrency enumerate_objects
        ≡ discover_layout b in_turn s root concurrency enumerate_objects
  unfolding discover_layout computer_layout
  discover_layout-in_turn root concurrency enumerate_objects = elim (Bool-cases (b.is_dir s root)) [
    | inr none_e ↦ rw none_e refl
    | inl is_dir ↦ rw is_dir (
        map-eq (computer_layout b completed s root concurrency enumerate_objects)
          (computer_layout b in_turn s root concurrency enumerate_objects)
          (computer_layout-in_turn root concurrency enumerate_objects)
          (matching_names computer_uuid_re (or_empty_list (b.list_dir s root))))
  ]
