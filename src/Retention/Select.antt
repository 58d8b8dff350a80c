-- ===== src/Retention/Select.antt =====
-- `RetentionPolicy` and `select_retained`. The set of kept paths is a list.
use arq_backup_tui.Common.{
  ℕ, zero, suc, Bool, true, false, ◌&&◌, ◌||◌, Option, none, some, List, [], ◌∷◌, ◌++◌, map, length,
  take, leb, list_eq, if◌then◌else◌, ◌+◌,
}
use arq_backup_tui.Common.Int.{ℤ, pos, negsuc}
use arq_backup_tui.Common.Result.{Result, ok, ◌>>=◌}
use arq_backup_tui.Wire.Types.{Text}
use arq_backup_tui.Retention.Dates.{
  Kind, hourly, daily, weekly, monthly, yearly, DateError, from_timestamp, bucket_key,
}

pub record RetentionPolicy : Type 0 where
  pub keep_last_n : Option ℤ
  pub keep_hourly : ℤ
  pub keep_daily : ℤ
  pub keep_weekly : ℤ
  pub keep_monthly : ℤ
  pub keep_yearly : ℤ

abbrev is_zero : ℤ → Bool
is_zero (pos zero) = true
is_zero (pos (suc n)) = false
is_zero (negsuc n) = false

abbrev is_unset : Option ℤ → Bool
is_unset none = true
is_unset (some n) = false

unfoldable pub is_keep_all : RetentionPolicy → Bool
is_keep_all policy =
    is_unset policy.keep_last_n
    && is_zero policy.keep_hourly
    && is_zero policy.keep_daily
    && is_zero policy.keep_weekly
    && is_zero policy.keep_monthly
    && is_zero policy.keep_yearly

pub record RecordRef : Type 0 where
  pub path : Text
  pub creation_date : ℤ

unfoldable pub le_date : ℤ → ℤ → Bool
le_date (pos a) (pos b) = leb a b
le_date (pos a) (negsuc b) = false
le_date (negsuc a) (pos b) = true
le_date (negsuc a) (negsuc b) = leb b a

-- `sorted(records, key=creation_date)`, which is stable.
unfoldable pub insert_by_date : RecordRef → List RecordRef → List RecordRef
insert_by_date r [] = r ∷ []
insert_by_date r (s ∷ ss) =
    let rest = insert_by_date r ss in
    if le_date r.creation_date s.creation_date then r ∷ s ∷ ss else s ∷ rest

unfoldable pub sort_by_date : List RecordRef → List RecordRef
sort_by_date [] = []
sort_by_date (r ∷ rs) = insert_by_date r (sort_by_date rs)

unfoldable pub reverse_onto : List RecordRef → List RecordRef → List RecordRef
reverse_onto acc [] = acc
reverse_onto acc (r ∷ rs) = reverse_onto (r ∷ acc) rs

unfoldable pub newest_first : List RecordRef → List RecordRef
newest_first records = reverse_onto [] (sort_by_date records)

-- `key in seen_buckets`
unfoldable pub mem_key : List ℕ → List (List ℕ) → Bool
mem_key key [] = false
mem_key key (k ∷ keys) = list_eq k key || mem_key key keys

unfoldable pub keep_last : Option ℤ → List RecordRef → List Text
keep_last none newest = []
keep_last (some (pos n)) newest = map (λ r. r.path) (take n newest)
keep_last (some (negsuc n)) newest = []

unfoldable pub bucket_of : Kind → RecordRef → Result DateError (List ℕ)
bucket_of kind r = from_timestamp r.creation_date >>= λ t. ok (bucket_key kind t)

-- The loop over the records for one kind of bucket.
unfoldable pub bucket_loop :
    Kind → ℕ → List RecordRef → List (List ℕ) → List Text → Result DateError (List Text)
bucket_loop kind limit [] seen keep = ok keep
bucket_loop kind limit (r ∷ rs) seen keep = bucket_of kind r >>= λ key. elim (mem_key key seen) [
  | true ↦ bucket_loop kind limit rs seen keep
  | false ↦ elim (leb limit (length seen + 1)) [
    | true ↦ ok (keep ++ r.path ∷ [])
    | false ↦ bucket_loop kind limit rs (seen ++ key ∷ []) (keep ++ r.path ∷ [])
  ]
]

unfoldable pub keep_buckets : Kind → ℤ → List RecordRef → List Text → Result DateError (List Text)
keep_buckets kind (pos zero) newest keep = ok keep
keep_buckets kind (pos (suc n)) newest keep = bucket_loop kind (suc n) newest [] keep
keep_buckets kind (negsuc n) newest keep = ok keep

unfoldable pub select_retained : List RecordRef → RetentionPolicy → Result DateError (List Text)
select_retained records policy =
    let newest = newest_first records in
    if is_keep_all policy then ok (map (λ r. r.path) records) else (elim records [
      | [] ↦ ok []
      | first ∷ others ↦
          keep_buckets hourly policy.keep_hourly newest (keep_last policy.keep_last_n newest)
          >>= λ k1. keep_buckets daily policy.keep_daily newest k1 >>= λ k2.
              keep_buckets weekly policy.keep_weekly newest k2 >>= λ k3.
              keep_buckets monthly policy.keep_monthly newest k3 >>= λ k4.
              keep_buckets yearly policy.keep_yearly newest k4
    ])
