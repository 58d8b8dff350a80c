-- ===== src/Retention/Reference.antt =====
-- The loops of `select_retained` against a description of what a policy keeps of records in an order.
use arq_backup_tui.Common.{
  mem_text, list_eq, list_eq_iff, ℕ, zero, suc, ◌+◌, ◌-◌, ◌<◌, ◌≡◌, refl, sym, ap, subst, ◌∙◌, true,
  false, Bool-cases, Option, none, some, List, [], ◌∷◌, ◌++◌, append-nil, append_assoc, arith, map,
  length, length-append, take, leb, All, inl, inr, if_ind, if◌then◌else◌,
}
use arq_backup_tui.Common.Int.{ℤ, pos, negsuc}
use arq_backup_tui.Common.Result.{ok, ◌>>=◌, bind_ok}
use arq_backup_tui.Wire.Types.{Text}
use arq_backup_tui.Retention.Dates.{
  Kind, hourly, daily, weekly, monthly, yearly, from_timestamp, in_calendar, since_year_one,
  bucket_key,
}
use arq_backup_tui.Retention.Select.{
  RetentionPolicy, RecordRef, is_keep_all, mem_key, keep_last, bucket_of, bucket_loop, keep_buckets,
  newest_first, sort_by_date, insert_by_date, le_date, reverse_onto, select_retained,
}

-- The bucket of a record whose date the calendar has.
abbrev pub key : Kind → RecordRef → List ℕ
key kind r = bucket_key kind (since_year_one r.creation_date)

abbrev pub IsDated : RecordRef → Type 0
IsDated r = in_calendar r.creation_date ≡ true

abbrev pub paths : List RecordRef → List Text
paths records = map (λ r. r.path) records

-- The newest records, as many as the counter says.
unfoldable pub last_paths : Option ℤ → List RecordRef → List Text
last_paths none newest = []
last_paths (some (pos n)) newest = paths (take n newest)
last_paths (some (negsuc n)) newest = []

-- The records that are the first of their bucket, in a list where the buckets `seen` came before.
unfoldable pub firsts : Kind → List RecordRef → List (List ℕ) → List RecordRef
firsts kind [] seen = []
firsts kind (r ∷ rs) seen = elim (mem_text (key kind r) seen) [
  | true ↦ firsts kind rs seen
  | false ↦ r ∷ firsts kind rs (seen ++ key kind r ∷ [])
]

-- The newest record of each of the newest buckets, as many as the counter says.
unfoldable pub bucket_paths : Kind → ℤ → List RecordRef → List Text
bucket_paths kind (pos n) newest = paths (take n (firsts kind newest []))
bucket_paths kind (negsuc n) newest = []

unfoldable pub kept_paths : RetentionPolicy → List RecordRef → List Text
kept_paths policy newest =
    last_paths policy.keep_last_n newest
    ++ bucket_paths hourly policy.keep_hourly newest
    ++ bucket_paths daily policy.keep_daily newest
    ++ bucket_paths weekly policy.keep_weekly newest
    ++ bucket_paths monthly policy.keep_monthly newest
    ++ bucket_paths yearly policy.keep_yearly newest

bucket_of_dated : (kind : Kind) (r : RecordRef) → IsDated r → bucket_of kind r ≡ ok (key kind r)
unfolding bucket_of from_timestamp
bucket_of_dated kind r h = rw h refl

length_snoc : (seen : List (List ℕ)) (k : List ℕ) → length (seen ++ k ∷ []) ≡ suc (length seen)
length_snoc seen k = omega (arith, length-append seen (k ∷ []))

append_take_nil : (keep : List Text) (n : ℕ) → keep ++ paths (take n []) ≡ keep
append_take_nil keep zero = append-nil keep
append_take_nil keep (suc n) = append-nil keep

keep_more :
    (keep : List Text) (r : RecordRef) (rs : List RecordRef) (n m : ℕ)
    → n ≡ suc m
    → (keep ++ r.path ∷ []) ++ paths (take m rs) ≡ keep ++ paths (take n (r ∷ rs))
keep_more keep r rs n m e =
    subst (λ k. (keep ++ r.path ∷ []) ++ paths (take m rs) ≡ keep ++ paths (take k (r ∷ rs)))
      (sym e) (append_assoc keep (r.path ∷ []) (paths (take m rs)))

pub firsts_again :
    (kind : Kind) (r : RecordRef) (rs : List RecordRef) (seen : List (List ℕ))
    → mem_text (key kind r) seen ≡ true
    → firsts kind (r ∷ rs) seen ≡ firsts kind rs seen
unfolding firsts
firsts_again kind r rs seen h = rw (h, firsts) refl

pub firsts_new :
    (kind : Kind) (r : RecordRef) (rs : List RecordRef) (seen : List (List ℕ))
    → mem_text (key kind r) seen ≡ false
    → firsts kind (r ∷ rs) seen ≡ r ∷ firsts kind rs (seen ++ key kind r ∷ [])
unfolding firsts
firsts_new kind r rs seen h = rw (h, firsts) refl

mem_key-mem_text : (k : List ℕ) (keys : List (List ℕ)) → mem_key k keys ≡ mem_text k keys
unfolding mem_key mem_text
mem_key-mem_text k [] = refl
mem_key-mem_text k (l ∷ keys) =
    let rest = mem_key-mem_text k keys in
    let one = list_eq_iff l k in
    let other = list_eq_iff k l in
    elim (Bool-cases (list_eq l k)) [
      | inl same ↦ rw (same, other.1 (sym (one.0 same))) refl
      | inr differs ↦ elim (Bool-cases (list_eq k l)) [
        | inl same ↦ absurd (clash (one.1 (sym (other.0 same))) differs)
        | inr differs' ↦ rw (differs, differs') rest
      ]
    ]
  where
    clash : list_eq l k ≡ true → list_eq l k ≡ false → ⊥
    clash e f = cc

keep_last-last_paths :
    (limit : Option ℤ) (newest : List RecordRef) → keep_last limit newest ≡ last_paths limit newest
unfolding keep_last last_paths
keep_last-last_paths none newest = refl
keep_last-last_paths (some (pos n)) newest = refl
keep_last-last_paths (some (negsuc n)) newest = refl

bucket_loop_lem :
    (kind : Kind) (limit : ℕ) (rs : List RecordRef) (seen : List (List ℕ)) (keep : List Text)
    → All IsDated rs
    → length seen < limit
    → bucket_loop kind limit rs seen keep
      ≡ ok (keep ++ paths (take (limit - length seen) (firsts kind rs seen)))
unfolding bucket_loop
bucket_loop_lem kind limit [] seen keep dated below =
    ap ok (sym (unfold firsts in append_take_nil keep (limit - length seen)))
bucket_loop_lem kind limit (r ∷ rs) seen keep (d, dated) below =
    let more = firsts kind rs (seen ++ key kind r ∷ []) in
    let len = length_snoc seen (key kind r) in
    bind_ok (bucket_of kind r) _ (key kind r) (bucket_of_dated kind r d)
    ∙ elim (Bool-cases (mem_text (key kind r) seen)) [
      | inl again ↦
          rw (mem_key-mem_text (key kind r) seen, again)
            (rw (firsts_again kind r rs seen again)
              (bucket_loop_lem kind limit rs seen keep dated below))
      | inr new ↦
          rw (mem_key-mem_text (key kind r) seen, new)
            (rw (firsts_new kind r rs seen new) (elim (Bool-cases (leb limit (length seen + 1))) [
              | inl full ↦ rw full (
                  ap ok (
                    sym (append-nil (keep ++ r.path ∷ []))
                    ∙ keep_more keep r more (limit - length seen) 0 (ground arith)))
              | inr room ↦ rw room (
                  bucket_loop_lem kind limit rs (seen ++ key kind r ∷ []) (keep ++ r.path ∷ [])
                    dated (ground arith)
                  ∙ ap ok (
                      keep_more keep r more (limit - length seen)
                        (limit - length (seen ++ key kind r ∷ [])) (ground arith)))
            ]))
    ]

keep_buckets_lem :
    (kind : Kind) (limit : ℤ) (newest : List RecordRef) (keep : List Text)
    → All IsDated newest
    → keep_buckets kind limit newest keep ≡ ok (keep ++ bucket_paths kind limit newest)
unfolding keep_buckets bucket_paths
keep_buckets_lem kind (pos zero) newest keep dated = ap ok (sym (append-nil keep))
keep_buckets_lem kind (pos (suc n)) newest keep dated =
    let all : suc n - 0 ≡ suc n = omega arith in
    subst
      (λ k.
        bucket_loop kind (suc n) newest [] keep
        ≡ ok (keep ++ paths (take k (firsts kind newest []))))
      all (bucket_loop_lem kind (suc n) newest [] keep dated (omega arith))
keep_buckets_lem kind (negsuc n) newest keep dated = ap ok (sym (append-nil keep))

-- What holds of all records holds of them in the order of their dates.
module _ {ℓ} (P : RecordRef → Type ℓ) where
  pub All-insert :
      (r : RecordRef) (rs : List RecordRef) → P r → All P rs → All P (insert_by_date r rs)
  unfolding insert_by_date
  All-insert r [] h hs = (h, hs)
  All-insert r (s ∷ ss) h (g, gs) =
      if_ind (All P) (le_date r.creation_date s.creation_date) (r ∷ s ∷ ss)
        (s ∷ insert_by_date r ss) (h, (g, gs)) (g, All-insert r ss h gs)

  All-sort : (rs : List RecordRef) → All P rs → All P (sort_by_date rs)
  unfolding sort_by_date
  All-sort [] hs = hs
  All-sort (r ∷ rs) (h, hs) = All-insert r (sort_by_date rs) h (All-sort rs hs)

  All-reverse_onto : (acc rs : List RecordRef) → All P acc → All P rs → All P (reverse_onto acc rs)
  unfolding reverse_onto
  All-reverse_onto acc [] ha hs = ha
  All-reverse_onto acc (r ∷ rs) ha (h, hs) = All-reverse_onto (r ∷ acc) rs (h, ha) hs

  pub All-newest_first : (rs : List RecordRef) → All P rs → All P (newest_first rs)
  unfolding newest_first
  All-newest_first rs hs = All-reverse_onto [] (sort_by_date rs) tt (All-sort rs hs)

take_nil : (n : ℕ) → paths (take n []) ≡ []
take_nil zero = refl
take_nil (suc n) = refl

bucket_paths_nil : (kind : Kind) (limit : ℤ) → bucket_paths kind limit [] ≡ []
unfolding bucket_paths firsts
bucket_paths_nil kind (pos n) = take_nil n
bucket_paths_nil kind (negsuc n) = refl

last_paths_nil : (limit : Option ℤ) → last_paths limit [] ≡ []
unfolding last_paths
last_paths_nil none = refl
last_paths_nil (some (pos n)) = take_nil n
last_paths_nil (some (negsuc n)) = refl

kept_paths_nil : (policy : RetentionPolicy) → kept_paths policy [] ≡ []
unfolding kept_paths
kept_paths_nil policy = rw (last_paths_nil policy.keep_last_n) (
    rw (bucket_paths_nil hourly policy.keep_hourly) (
      rw (bucket_paths_nil daily policy.keep_daily) (
        rw (bucket_paths_nil weekly policy.keep_weekly) (
          rw (bucket_paths_nil monthly policy.keep_monthly)
            (rw (bucket_paths_nil yearly policy.keep_yearly) refl)))))

bucket_chain :
    (policy : RetentionPolicy) (newest : List RecordRef)
    → All IsDated newest
    → (keep_buckets hourly policy.keep_hourly newest (keep_last policy.keep_last_n newest) >>= λ k1.
        keep_buckets daily policy.keep_daily newest k1 >>= λ k2.
        keep_buckets weekly policy.keep_weekly newest k2 >>= λ k3.
        keep_buckets monthly policy.keep_monthly newest k3 >>= λ k4.
        keep_buckets yearly policy.keep_yearly newest k4)
      ≡ ok (kept_paths policy newest)
unfolding kept_paths
bucket_chain policy newest dated = rw (keep_last-last_paths policy.keep_last_n newest) (
    rw (keep_buckets_lem hourly policy.keep_hourly newest _ dated) (
      rw (keep_buckets_lem daily policy.keep_daily newest _ dated) (
        rw (keep_buckets_lem weekly policy.keep_weekly newest _ dated) (
          rw (keep_buckets_lem monthly policy.keep_monthly newest _ dated)
            (keep_buckets_lem yearly policy.keep_yearly newest _ dated)))))

pub select_retained-newest_first :
    (records : List RecordRef) (policy : RetentionPolicy)
    → All IsDated records
    → select_retained records policy
      ≡ ok (if is_keep_all policy then paths records else kept_paths policy (newest_first records))
unfolding select_retained
select_retained-newest_first [] policy dated = elim (Bool-cases (is_keep_all policy)) [
  | inl all ↦ rw all refl
  | inr some_only ↦
      rw some_only
        (ap ok (sym (unfold newest_first sort_by_date reverse_onto in kept_paths_nil policy)))
]
select_retained-newest_first (r ∷ rs) policy dated = elim (Bool-cases (is_keep_all policy)) [
  | inl all ↦ rw all refl
  | inr some_only ↦
      rw some_only
        (bucket_chain policy (newest_first (r ∷ rs)) (All-newest_first IsDated (r ∷ rs) dated))
]
