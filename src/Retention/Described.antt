-- ===== src/Retention/Described.antt =====
-- What `select_retained` keeps, described without the order in which the code puts the records.
use mathlib.Core.List.{Permᴰ}
use mathlib.Core.List.Permᴰ
use arq_backup_tui.Common.{
  ◌≡◌, refl, subst, Bool-cases, List, [], ◌∷◌, ◌++◌, append-nil, All, inl, inr, if◌then◌else◌,
}
use arq_backup_tui.Common.Result.{ok}
use arq_backup_tui.Retention.Select.{
  RetentionPolicy, RecordRef, is_keep_all, le_date, insert_by_date, sort_by_date, reverse_onto,
  newest_first, select_retained,
}
use arq_backup_tui.Retention.Reference.{IsDated, paths, kept_paths, select_retained-newest_first}
use arq_backup_tui.Retention.Newest.{IsNotNewer, Ascending, sort-Ascending}

-- No record is newer than one before it.
abbrev pub Descending : List RecordRef → Type 0
Descending [] = Unit
Descending (r ∷ rs) = All (IsNotNewer r) rs × Descending rs

insert-Permᴰ : (r : RecordRef) (rs : List RecordRef) → Permᴰ (insert_by_date r rs) (r ∷ rs)
unfolding insert_by_date
insert-Permᴰ r [] = Permᴰ.refl (r ∷ [])
insert-Permᴰ r (s ∷ ss) = elim (Bool-cases (le_date r.creation_date s.creation_date)) [
  | inl before ↦ rw before (Permᴰ.refl (r ∷ s ∷ ss))
  | inr after ↦ rw after (Permᴰ.trans (Permᴰ.cons refl (insert-Permᴰ r ss)) (Permᴰ.swap refl refl))
]

sort-Permᴰ : (rs : List RecordRef) → Permᴰ (sort_by_date rs) rs
unfolding sort_by_date
sort-Permᴰ [] = Permᴰ.nil
sort-Permᴰ (r ∷ rs) =
    Permᴰ.trans (insert-Permᴰ r (sort_by_date rs)) (Permᴰ.cons refl (sort-Permᴰ rs))

reverse_onto-Permᴰ : (acc rs : List RecordRef) → Permᴰ (reverse_onto acc rs) (rs ++ acc)
unfolding reverse_onto
reverse_onto-Permᴰ acc [] = Permᴰ.refl acc
reverse_onto-Permᴰ acc (r ∷ rs) =
    Permᴰ.trans (reverse_onto-Permᴰ (r ∷ acc) rs) (Permᴰ.middle r rs acc)

newest_first-Permᴰ : (rs : List RecordRef) → Permᴰ (newest_first rs) rs
unfolding newest_first
newest_first-Permᴰ rs =
    Permᴰ.trans
      (subst (Permᴰ (reverse_onto [] (sort_by_date rs))) (append-nil (sort_by_date rs))
        (reverse_onto-Permᴰ [] (sort_by_date rs)))
      (sort-Permᴰ rs)

-- No record of the one list is newer than a record of the other.
abbrev Before : List RecordRef → List RecordRef → Type 0
Before acc rs = All (λ a. All (λ r. IsNotNewer r a) rs) acc

Before-head :
    (acc : List RecordRef) (r : RecordRef) (rs : List RecordRef)
    → Before acc (r ∷ rs)
    → All (IsNotNewer r) acc
Before-head [] r rs h = tt
Before-head (a ∷ acc) r rs ((h, hs), g) = (h, Before-head acc r rs g)

Before-tail :
    (acc : List RecordRef) (r : RecordRef) (rs : List RecordRef)
    → Before acc (r ∷ rs)
    → Before acc rs
Before-tail [] r rs h = tt
Before-tail (a ∷ acc) r rs ((h, hs), g) = (hs, Before-tail acc r rs g)

reverse_onto-Descending :
    (acc rs : List RecordRef)
    → Descending acc
    → Ascending rs
    → Before acc rs
    → Descending (reverse_onto acc rs)
unfolding reverse_onto
reverse_onto-Descending acc [] d a h = d
reverse_onto-Descending acc (r ∷ rs) d (a, more) h =
    reverse_onto-Descending (r ∷ acc) rs (Before-head acc r rs h, d) more
      (a, Before-tail acc r rs h)

newest_first-Descending : (rs : List RecordRef) → Descending (newest_first rs)
unfolding newest_first
newest_first-Descending rs = reverse_onto-Descending [] (sort_by_date rs) tt (sort-Ascending rs) tt

-- Where the calendar has every record's date, the records have an order in which none is newer than one
-- before it, such that select_retained returns: every path under a policy that keeps all, and under any
-- other the paths of the first records of that order, and for each kind of bucket the paths of the first
-- records of the first buckets, as many as the counters say.
pub select_retained-kept_paths :
    (records : List RecordRef) (policy : RetentionPolicy)
    → All IsDated records
    → (newest : List RecordRef) × Permᴰ newest records
      × Descending newest
      × (select_retained records policy
          ≡ ok (if is_keep_all policy then paths records else kept_paths policy newest))
select_retained-kept_paths records policy dated = (
  newest_first records,
  newest_first-Permᴰ records,
  newest_first-Descending records,
  select_retained-newest_first records policy dated,
)
