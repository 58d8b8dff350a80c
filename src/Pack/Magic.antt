-- ===== src/Pack/Magic.antt =====
-- `_find_magic` of arq_reader/pack.py finds the first magic.
use arq_backup_tui.Common.{
  ℕ, zero, suc, ◌+◌, ◌≤◌, ◌≡◌, ◌≢◌, sym, ap, ◌∙◌, Bool, true, false, Bool-cases, none, some, List,
  [], ◌∷◌, arith, take, drop, list_eq, list_eq_iff, inl, inr, if◌then◌else◌,
}
use arq_backup_tui.Crypto.Object.{arqo_magic}
use arq_backup_tui.Pack.Index.{find_from, find_magic}

pub nil_no_magic : (j : ℕ) → take 4 (drop j []) ≢ arqo_magic
nil_no_magic zero e = cc
nil_no_magic (suc j) e = cc

not_here : (bs : List ℕ) → list_eq (take 4 bs) arqo_magic ≡ false → take 4 bs ≢ arqo_magic
not_here bs h e = differ ((list_eq_iff (take 4 bs) arqo_magic).1 e) h
  where
    differ : {b : Bool} → b ≡ true → b ≡ false → ⊥
    differ p q = cc

find_from-none :
    (bs : List ℕ) (pos : ℕ) → find_from bs pos ≡ none → (j : ℕ) → take 4 (drop j bs) ≢ arqo_magic
unfolding find_from
find_from-none [] pos h j = nil_no_magic j
find_from-none (b ∷ bs) pos h j = elim (Bool-cases (list_eq (take 4 (b ∷ bs)) arqo_magic)) [
  | inl here ↦ absurd (found here h)
  | inr other ↦ behind j other (find_from-none bs (pos + 1) (not_found other h))
]
  where
    found :
        list_eq (take 4 (b ∷ bs)) arqo_magic ≡ true
        → (if list_eq (take 4 (b ∷ bs)) arqo_magic then some pos else find_from bs (pos + 1)) ≡ none
        → ⊥
    found here h = let e = ap (λ t. if t then some pos else find_from bs (pos + 1)) here in cc

    not_found :
        list_eq (take 4 (b ∷ bs)) arqo_magic ≡ false
        → (if list_eq (take 4 (b ∷ bs)) arqo_magic then some pos else find_from bs (pos + 1)) ≡ none
        → find_from bs (pos + 1) ≡ none
    not_found other h = sym (ap (λ t. if t then some pos else find_from bs (pos + 1)) other) ∙ h

    behind :
        (j : ℕ)
        → list_eq (take 4 (b ∷ bs)) arqo_magic ≡ false
        → ((i : ℕ) → take 4 (drop i bs) ≢ arqo_magic)
        → take 4 (drop j (b ∷ bs)) ≢ arqo_magic
    behind zero other later = not_here (b ∷ bs) other
    behind (suc j) other later = later j

-- A magic that is found is the first.
find_from_first :
    (bs : List ℕ) (pos c : ℕ)
    → find_from bs pos ≡ some c
    → (k : ℕ) × (c ≡ pos + k)
      × (take 4 (drop k bs) ≡ arqo_magic)
      × ((j : ℕ) → take 4 (drop j bs) ≡ arqo_magic → k ≤ j)
unfolding find_from
find_from_first [] pos c h = cc
find_from_first (b ∷ bs) pos c h = elim (Bool-cases (list_eq (take 4 (b ∷ bs)) arqo_magic)) [
  | inl here ↦
      (0, at_once here h, (list_eq_iff (take 4 (b ∷ bs)) arqo_magic).0 here, (λ j e. omega arith))
  | inr other ↦
      let (k, e, m, first) = find_from_first bs (pos + 1) c (not_found other h) in
      (suc k, omega arith, m, behind other k first)
]
  where
    at_once :
        list_eq (take 4 (b ∷ bs)) arqo_magic ≡ true
        → (if list_eq (take 4 (b ∷ bs)) arqo_magic then some pos else find_from bs (pos + 1))
          ≡ some c
        → c ≡ pos + 0
    at_once here h =
        let e : some pos ≡ some c =
          sym (ap (λ t. if t then some pos else find_from bs (pos + 1)) here) ∙ h in
        let s : pos ≡ c = cc in omega arith

    not_found :
        list_eq (take 4 (b ∷ bs)) arqo_magic ≡ false
        → (if list_eq (take 4 (b ∷ bs)) arqo_magic then some pos else find_from bs (pos + 1))
          ≡ some c
        → find_from bs (pos + 1) ≡ some c
    not_found other h = sym (ap (λ t. if t then some pos else find_from bs (pos + 1)) other) ∙ h

    behind :
        list_eq (take 4 (b ∷ bs)) arqo_magic ≡ false
        → (k : ℕ) → ((i : ℕ) → take 4 (drop i bs) ≡ arqo_magic → k ≤ i)
        → (j : ℕ) → take 4 (drop j (b ∷ bs)) ≡ arqo_magic
        → suc k ≤ j
    behind other k first zero e = absurd (not_here (b ∷ bs) other e)
    behind other k first (suc j) e = omega (arith, first j e)

pub magic_none :
    (pack : List ℕ) (start : ℕ)
    → find_magic pack start ≡ none
    → (j : ℕ) → take 4 (drop j (drop start pack)) ≢ arqo_magic
unfolding find_magic
magic_none pack start h = find_from-none (drop start pack) start h

pub magic_first :
    (pack : List ℕ) (start c : ℕ)
    → find_magic pack start ≡ some c
    → (k : ℕ) × (c ≡ start + k)
      × (take 4 (drop k (drop start pack)) ≡ arqo_magic)
      × ((j : ℕ) → take 4 (drop j (drop start pack)) ≡ arqo_magic → k ≤ j)
unfolding find_magic
magic_first pack start c h = find_from_first (drop start pack) start c h
