-- ===== src/Common/Sort.antt =====
-- Python's `sorted` for values of a total order, as an insertion sort, and the order of texts and tuples.
use Prim.Native.Nat.{ℕ}
use mathlib.Core.Path.{◌≡◌, refl, sym, ap, ◌∙◌}
use mathlib.Core.Bool.{Bool, true, false}
use mathlib.Core.Logic.{inl, inr}
use mathlib.Core.List.{List, [], ◌∷◌, Permᴰ}
use native.Mathlib.Omega.{arith}
use arq_backup_tui.Common.Tests.{ltb, ◌==◌, if◌then◌else◌, Bool-cases, if_ind}
use arq_backup_tui.Common.Lists.{All}

pub record IsOrder {ℓ} {A : Type ℓ} (le : A → A → Bool) : Type ℓ where
  pub total : (a b : A) → le a b ≡ false → le b a ≡ true
  pub antisym : (a b : A) → le a b ≡ true → le b a ≡ true → a ≡ b
  pub trans : (a b c : A) → le a b ≡ true → le b c ≡ true → le a c ≡ true

module _ {ℓ} {A : Type ℓ} (le : A → A → Bool) where
  unfoldable pub insert_sorted : A → List A → List A
  insert_sorted x [] = x ∷ []
  insert_sorted x (y ∷ ys) =
      let rest = insert_sorted x ys in if le x y then x ∷ y ∷ ys else y ∷ rest

  unfoldable pub sorted : List A → List A
  sorted [] = []
  sorted (x ∷ xs) = insert_sorted x (sorted xs)

  insert_first : (x y : A) (ys : List A) → le x y ≡ true → insert_sorted x (y ∷ ys) ≡ x ∷ y ∷ ys
  unfolding insert_sorted
  insert_first x y ys h = rw h

  insert_later :
      (x y : A) (ys : List A) → le x y ≡ false → insert_sorted x (y ∷ ys) ≡ y ∷ insert_sorted x ys
  unfolding insert_sorted
  insert_later x y ys h = rw h

-- What holds of every value holds of every value of the sorted list.
module _ {ℓ κ} {A : Type ℓ} (le : A → A → Bool) (Q : A → Type κ) where
  All-insert_sorted : (x : A) (xs : List A) → Q x → All Q xs → All Q (insert_sorted le x xs)
  unfolding insert_sorted
  All-insert_sorted x [] q h = (q, tt)
  All-insert_sorted x (y ∷ ys) q (h, hs) =
      if_ind (All Q) (le x y) (x ∷ y ∷ ys) (y ∷ insert_sorted le x ys) (q, (h, hs))
        (h, All-insert_sorted x ys q hs)

  pub All-sorted : (xs : List A) → All Q xs → All Q (sorted le xs)
  unfolding sorted
  All-sorted [] h = tt
  All-sorted (x ∷ xs) (h, hs) = All-insert_sorted x (sorted le xs) h (All-sorted xs hs)

-- "Smaller first": on texts by code points, on pairs by the first component that differs.
unfoldable pub text_le : List ℕ → List ℕ → Bool
text_le [] ys = true
text_le (x ∷ xs) [] = false
text_le (x ∷ xs) (y ∷ ys) = if x == y then text_le xs ys else ltb x y

module _ {ℓ κ} {A : Type ℓ} {B : Type κ} (le_a : A → A → Bool) (le_b : B → B → Bool) where
  unfoldable pub pair_le : A × B → A × B → Bool
  pair_le (a, b) (a', b') = if le_a a a' then (if le_a a' a then le_b b b' else true) else false

  pub pair_le-IsOrder : IsOrder le_a → IsOrder le_b → IsOrder pair_le
  unfolding pair_le
  pair_le-IsOrder p q = record {
    total = λ x y h. ground (arith, p.total x.0 y.0, p.total y.0 x.0, q.total x.1 y.1);
    antisym = λ x y h g. ground (arith, p.antisym x.0 y.0, q.antisym x.1 y.1);
    trans = λ x y z h g.
        ground (
          arith,
          p.trans x.0 y.0 z.0,
          p.trans z.0 x.0 y.0,
          p.trans y.0 z.0 x.0,
          q.trans x.1 y.1 z.1,
        );
  }

text_le-total : (xs ys : List ℕ) → text_le xs ys ≡ false → text_le ys xs ≡ true
unfolding text_le
text_le-total [] ys h = cc
text_le-total (x ∷ xs) [] h = refl
text_le-total (x ∷ xs) (y ∷ ys) h = ground (arith, text_le-total xs ys)

text_le-antisym : (xs ys : List ℕ) → text_le xs ys ≡ true → text_le ys xs ≡ true → xs ≡ ys
unfolding text_le
text_le-antisym [] [] h g = refl
text_le-antisym [] (y ∷ ys) h g = cc
text_le-antisym (x ∷ xs) [] h g = cc
text_le-antisym (x ∷ xs) (y ∷ ys) h g = ground (arith, text_le-antisym xs ys)

text_le_trans :
    (xs ys zs : List ℕ) → text_le xs ys ≡ true → text_le ys zs ≡ true → text_le xs zs ≡ true
unfolding text_le
text_le_trans [] ys zs h g = refl
text_le_trans (x ∷ xs) [] zs h g = cc
text_le_trans (x ∷ xs) (y ∷ ys) [] h g = cc
text_le_trans (x ∷ xs) (y ∷ ys) (z ∷ zs) h g = ground (arith, text_le_trans xs ys zs)

pub text_le-IsOrder : IsOrder text_le
text_le-IsOrder = record { total = text_le-total; antisym = text_le-antisym; trans = text_le_trans }

module _ {ℓ} {A : Type ℓ} (le : A → A → Bool) (order : IsOrder le) where
  -- The smaller of the two, inserted second.
  insert_smaller :
      (x y : A) (zs : List A)
      → le x y ≡ true
      → le y x ≡ false
      → insert_sorted le x (insert_sorted le y zs) ≡ insert_sorted le y (insert_sorted le x zs)
  unfolding insert_sorted
  insert_smaller x y [] h g = ground arith
  insert_smaller x y (z ∷ zs) h g = ground (
    arith,
    order.trans x y z,
    insert_smaller x y zs h g,
    insert_first le x y (z ∷ zs),
    insert_later le y x (z ∷ zs),
    insert_first le y z zs,
    insert_later le y z zs,
    insert_first le x z zs,
    insert_later le x z zs,
    insert_later le x z (insert_sorted le y zs),
    insert_later le y z (insert_sorted le x zs),
  )

  insert-insert :
      (x y : A) (zs : List A)
      → insert_sorted le x (insert_sorted le y zs) ≡ insert_sorted le y (insert_sorted le x zs)
  insert-insert x y zs = elim (Bool-cases (le x y)) [
    | inl h ↦ elim (Bool-cases (le y x)) [
      | inl g ↦ let e : x ≡ y = order.antisym x y h g in rw e refl
      | inr g ↦ insert_smaller x y zs h g
    ]
    | inr h ↦ sym (insert_smaller y x zs (order.total x y h) h)
  ]

  -- The order in which the values come makes no difference.
  pub sorted-perm : {xs ys : List A} → Permᴰ xs ys → sorted le xs ≡ sorted le ys
  unfolding sorted
  sorted-perm Permᴰ.nil = refl
  sorted-perm (Permᴰ.cons {a} {b} {l₁} {l₂} e d) =
      rw (sorted-perm d) (ap (λ z. insert_sorted le z (sorted le l₂)) e)
  sorted-perm (Permᴰ.swap {a} {b} {a'} {b'} {l} e f) = rw (e, f) (insert-insert b' a' (sorted le l))
  sorted-perm (Permᴰ.trans d₁ d₂) = sorted-perm d₁ ∙ sorted-perm d₂
