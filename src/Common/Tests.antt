-- ===== src/Common/Tests.antt =====
-- Boolean tests on the native numbers and on texts, and the conditional.
use Prim.Native.Nat.{ℕ, ◌≤◌, ◌<◌, compare, Ordering}
use mathlib.Core.Path.{◌≡◌, refl}
use mathlib.Core.Logic.{◌↔◌, ◌⊎◌, inl, inr}
use mathlib.Core.Bool.{Bool, true, false, ◌&&◌}
use mathlib.Core.Option.{Option, none, some}
use mathlib.Core.List.{List, [], ◌∷◌, ◌++◌}
use native.Mathlib.Omega.{arith}

abbrev pub ltb : ℕ → ℕ → Bool
ltb a b = elim (compare a b) [ Ordering.lt ↦ true | _ ↦ false ]

abbrev pub leb : ℕ → ℕ → Bool
leb a b = elim (compare a b) [ Ordering.gt ↦ false | _ ↦ true ]

infix 50 ◌==◌
abbrev pub ◌==◌ : ℕ → ℕ → Bool
a == b = elim (compare a b) [ Ordering.eq ↦ true | _ ↦ false ]

infix 1 if◌then◌else◌
abbrev pub if◌then◌else◌ {ℓ} : {A : Type ℓ} → Bool → A → A → A
if true then x else y = x
if false then x else y = y

pub ltb→lt : (a b : ℕ) → ltb a b ≡ true → a < b
ltb→lt a b h = ground arith

pub lt→ltb : (a b : ℕ) → a < b → ltb a b ≡ true
lt→ltb a b h = ground arith

pub leb→le : (a b : ℕ) → leb a b ≡ true → a ≤ b
leb→le a b h = ground arith

pub le→leb : (a b : ℕ) → a ≤ b → leb a b ≡ true
le→leb a b h = ground arith

pub lt→leb_false : (a b : ℕ) → b < a → leb a b ≡ false
lt→leb_false a b h = ground arith

pub ==_iff : (a b : ℕ) → ((a == b) ≡ true) ↔ (a ≡ b)
==_iff a b = ground arith

-- To split on a computed value and keep the equation.
pub Bool-cases : (b : Bool) → (b ≡ true) ⊎ (b ≡ false)
Bool-cases true = inl refl
Bool-cases false = inr refl

pub Option-cases {ℓ} : {A : Type ℓ} (o : Option A) → (o ≡ none) ⊎ ((a : A) × (o ≡ some a))
Option-cases none = inl refl
Option-cases (some a) = inr (a, refl)

-- Equality of two lists of numbers: of byte strings, or of texts as their code points.
unfoldable pub list_eq : List ℕ → List ℕ → Bool
list_eq [] [] = true
list_eq [] (y ∷ ys) = false
list_eq (x ∷ xs) [] = false
list_eq (x ∷ xs) (y ∷ ys) = x == y && list_eq xs ys

pub list_eq_iff : (xs ys : List ℕ) → (list_eq xs ys ≡ true) ↔ (xs ≡ ys)
unfolding list_eq
list_eq_iff [] [] = ((λ h. refl), (λ h. refl))
list_eq_iff [] (y ∷ ys) = ((λ h. cc), (λ h. cc))
list_eq_iff (x ∷ xs) [] = ((λ h. cc), (λ h. cc))
list_eq_iff (x ∷ xs) (y ∷ ys) =
    ((λ h. ground (arith, list_eq_iff xs ys)), (λ h. ground (arith, list_eq_iff xs ys)))

pub list_eq_refl : (xs : List ℕ) → list_eq xs xs ≡ true
list_eq_refl xs = (list_eq_iff xs xs).1 refl

-- What holds of both branches holds of the conditional.
pub if_ind {ℓ κ} :
    {A : Type ℓ} (P : A → Type κ) (b : Bool) (x y : A) → P x → P y → P (if b then x else y)
if_ind P true x y p q = p
if_ind P false x y p q = q

-- Membership of a text in a set of texts.
unfoldable pub mem_text : List ℕ → List (List ℕ) → Bool
mem_text t [] = false
mem_text t (u ∷ us) = if list_eq t u then true else mem_text t us

-- A text is in a set.
abbrev pub Has : List (List ℕ) → List ℕ → Type 0
Has texts t = mem_text t texts ≡ true

pub Has-cons_self : (t : List ℕ) (us : List (List ℕ)) → Has (t ∷ us) t
unfolding mem_text
Has-cons_self t us = rw (list_eq_refl t)

pub Has-cons_of_Has : (t u : List ℕ) (us : List (List ℕ)) → Has us t → Has (u ∷ us) t
unfolding mem_text
Has-cons_of_Has t u us h = ground arith

-- The first element or one of the others.
pub eq-or-Has_of_Has-cons :
    (t u : List ℕ) (us : List (List ℕ)) → Has (u ∷ us) t → (t ≡ u) ⊎ Has us t
unfolding mem_text
eq-or-Has_of_Has-cons t u us h = elim (Bool-cases (list_eq t u)) [
  | inl same ↦ inl ((list_eq_iff t u).0 same)
  | inr other ↦ inr (ground arith)
]

pub Has-append_left : (t : List ℕ) (us vs : List (List ℕ)) → Has us t → Has (us ++ vs) t
unfolding mem_text
Has-append_left t [] vs h = cc
Has-append_left t (u ∷ us) vs h = ground (arith, Has-append_left t us vs)

pub Has-append_right : (t : List ℕ) (us vs : List (List ℕ)) → Has vs t → Has (us ++ vs) t
unfolding mem_text
Has-append_right t [] vs h = h
Has-append_right t (u ∷ us) vs h = ground (arith, Has-append_right t us vs)

pub not_Has-nil : (t : List ℕ) → Has [] t → ⊥
unfolding mem_text
not_Has-nil t h = cc
