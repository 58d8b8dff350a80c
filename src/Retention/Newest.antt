-- ===== src/Retention/Newest.antt =====
-- The first record of `sorted_newest` is a newest one.
use arq_backup_tui.Common.{
  ◌≡◌, refl, sym, ap, subst, ◌∙◌, true, false, Bool-cases, List, [], ◌∷◌, arith, All, inl, inr,
  if◌then◌else◌,
}
use arq_backup_tui.Common.Int.{ℤ, pos, negsuc}
use arq_backup_tui.Retention.Select.{
  RecordRef, le_date, insert_by_date, sort_by_date, reverse_onto, newest_first,
}
use arq_backup_tui.Retention.Reference.{All-insert}

le_date_refl : (a : ℤ) → le_date a a ≡ true
unfolding le_date
le_date_refl (pos a) = ground arith
le_date_refl (negsuc a) = ground arith

le_date_trans : (a b c : ℤ) → le_date a b ≡ true → le_date b c ≡ true → le_date a c ≡ true
unfolding le_date
le_date_trans (pos a) (pos b) (pos c) h g = ground arith
le_date_trans (pos a) (pos b) (negsuc c) h g = cc
le_date_trans (pos a) (negsuc b) c h g = cc
le_date_trans (negsuc a) (pos b) (pos c) h g = refl
le_date_trans (negsuc a) (pos b) (negsuc c) h g = cc
le_date_trans (negsuc a) (negsuc b) (pos c) h g = refl
le_date_trans (negsuc a) (negsuc b) (negsuc c) h g = ground arith

le_date_total : (a b : ℤ) → le_date a b ≡ false → le_date b a ≡ true
unfolding le_date
le_date_total (pos a) (pos b) h = ground arith
le_date_total (pos a) (negsuc b) h = refl
le_date_total (negsuc a) (pos b) h = cc
le_date_total (negsuc a) (negsuc b) h = ground arith

-- `r` is not newer than `s`.
abbrev pub IsNotNewer : RecordRef → RecordRef → Type 0
IsNotNewer s r = le_date r.creation_date s.creation_date ≡ true

abbrev pub Ascending : List RecordRef → Type 0
Ascending [] = Unit
Ascending (r ∷ rs) = All (λ s. IsNotNewer s r) rs × Ascending rs

-- All of a list are at most as new as one record, and so as any that is not older.
All-IsNotNewer :
    (r m : RecordRef) (rs : List RecordRef)
    → IsNotNewer m r
    → All (IsNotNewer r) rs
    → All (IsNotNewer m) rs
All-IsNotNewer r m [] h hs = tt
All-IsNotNewer r m (s ∷ ss) h (g, gs) =
    (le_date_trans s.creation_date r.creation_date m.creation_date g h, All-IsNotNewer r m ss h gs)

All-IsNotNewer_from :
    (r s : RecordRef) (rs : List RecordRef)
    → IsNotNewer s r
    → All (λ t. IsNotNewer t s) rs
    → All (λ t. IsNotNewer t r) rs
All-IsNotNewer_from r s [] h hs = tt
All-IsNotNewer_from r s (t ∷ ts) h (g, gs) = (
  le_date_trans r.creation_date s.creation_date t.creation_date h g,
  All-IsNotNewer_from r s ts h gs,
)

insert-Ascending :
    (r : RecordRef) (rs : List RecordRef) → Ascending rs → Ascending (insert_by_date r rs)
unfolding insert_by_date
insert-Ascending r [] h = (tt, tt)
insert-Ascending r (s ∷ ss) (h, hs) = elim (Bool-cases (le_date r.creation_date s.creation_date)) [
  | inl before ↦ rw before ((before, All-IsNotNewer_from r s ss before h), (h, hs))
  | inr after ↦ rw after (
    All-insert (λ t. IsNotNewer t s) r ss (le_date_total r.creation_date s.creation_date after) h,
    insert-Ascending r ss hs,
  )
]

pub sort-Ascending : (rs : List RecordRef) → Ascending (sort_by_date rs)
unfolding sort_by_date
sort-Ascending [] = tt
sort-Ascending (r ∷ rs) = insert-Ascending r (sort_by_date rs) (sort-Ascending rs)

-- Every record is in the sorted list.
module _ (P : RecordRef → Type 0) where
  All-of_insert :
      (r : RecordRef) (rs : List RecordRef) → All P (insert_by_date r rs) → P r × All P rs
  unfolding insert_by_date
  All-of_insert r [] h = h
  All-of_insert r (s ∷ ss) h = elim (Bool-cases (le_date r.creation_date s.creation_date)) [
    | inl before ↦ of_before s ss before h
    | inr after ↦
        let (p, ps) = of_after s ss after h in let (q, qs) = All-of_insert r ss ps in (q, (p, qs))
  ]
    where
      of_before :
          (s : RecordRef) (ss : List RecordRef)
          → le_date r.creation_date s.creation_date ≡ true
          → All P (
              if le_date r.creation_date s.creation_date
              then r ∷ s ∷ ss
              else s ∷ insert_by_date r ss)
          → P r × (P s × All P ss)
      of_before s ss e h =
          subst (λ b. All P (if b then r ∷ s ∷ ss else s ∷ insert_by_date r ss)) e h

      of_after :
          (s : RecordRef) (ss : List RecordRef)
          → le_date r.creation_date s.creation_date ≡ false
          → All P (
              if le_date r.creation_date s.creation_date
              then r ∷ s ∷ ss
              else s ∷ insert_by_date r ss)
          → P s × All P (insert_by_date r ss)
      of_after s ss e h = subst (λ b. All P (if b then r ∷ s ∷ ss else s ∷ insert_by_date r ss)) e h

  All-of_sort : (rs : List RecordRef) → All P (sort_by_date rs) → All P rs
  unfolding sort_by_date
  All-of_sort [] h = tt
  All-of_sort (r ∷ rs) h =
      let (p, ps) = All-of_insert r (sort_by_date rs) h in (p, All-of_sort rs ps)

reverse_newest :
    (acc : List RecordRef) (r : RecordRef) (rs : List RecordRef)
    → Ascending (r ∷ rs)
    → All (IsNotNewer r) acc
    → (m : RecordRef) × (tail : List RecordRef) × (reverse_onto acc (r ∷ rs) ≡ m ∷ tail)
      × All (IsNotNewer m) (r ∷ rs)
unfolding reverse_onto
reverse_newest acc r [] a h = (r, acc, refl, (le_date_refl r.creation_date, tt))
reverse_newest acc r (s ∷ ss) ((b, bs), a) h =
    let (m, tail, e, (g, gs)) = reverse_newest (r ∷ acc) s ss a (b, All-IsNotNewer r s acc b h) in
    (m, tail, e, (le_date_trans r.creation_date s.creation_date m.creation_date b g, (g, gs)))

pub newest_first_lem :
    (r : RecordRef) (rs : List RecordRef)
    → (m : RecordRef) × (tail : List RecordRef) × (newest_first (r ∷ rs) ≡ m ∷ tail)
      × All (IsNotNewer m) (r ∷ rs)
unfolding newest_first
newest_first_lem r rs = of_sorted (sort_by_date (r ∷ rs)) refl
  where
    of_sorted :
        (sorted : List RecordRef)
        → sort_by_date (r ∷ rs) ≡ sorted
        → (m : RecordRef) × (tail : List RecordRef) × (reverse_onto [] (sort_by_date (r ∷ rs))
            ≡ m ∷ tail)
          × All (IsNotNewer m) (r ∷ rs)
    of_sorted [] e =
        let (none_left, rest) = All-of_sort (λ s. ⊥) (r ∷ rs) (subst (All (λ s. ⊥)) (sym e) tt) in
        absurd none_left
    of_sorted (s ∷ ss) e =
        let (m, tail, first, all) =
          reverse_newest [] s ss (subst Ascending e (sort-Ascending (r ∷ rs))) tt in
        (
          m,
          tail,
          ap (reverse_onto []) e ∙ first,
          All-of_sort (IsNotNewer m) (r ∷ rs) (subst (All (IsNotNewer m)) (sym e) all),
        )
