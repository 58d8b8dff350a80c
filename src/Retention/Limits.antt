-- ===== src/Retention/Limits.antt =====
-- How much `select_retained` keeps, and that it keeps the newest record.
use arq_backup_tui.Common.{
  In, mem_text, ℕ, zero, suc, ◌+◌, ◌≤◌, ◌≡◌, refl, sym, ap, subst, ◌∙◌, false, Bool-cases, Option,
  none, some, List, [], ◌∷◌, ◌++◌, arith, ltb, length, length-append, take, All, inl, inr, if_ind,
  if◌then◌else◌,
}
use arq_backup_tui.Common.Int.{ℤ, pos, negsuc}
use arq_backup_tui.Common.Result.{ok}
use arq_backup_tui.Wire.Types.{Text}
use arq_backup_tui.Retention.Dates.{Kind, hourly, daily, weekly, monthly, yearly}
use arq_backup_tui.Retention.Select.{
  RetentionPolicy, RecordRef, is_keep_all, newest_first, select_retained,
}
use arq_backup_tui.Retention.Reference.{
  IsDated, paths, last_paths, firsts, bucket_paths, kept_paths, All-newest_first,
}
use arq_backup_tui.Retention.Keeps.{All-In, kept_of, records-In}
use arq_backup_tui.Retention.Newest.{IsNotNewer, newest_first_lem}

-- What a counter counts: below one, nothing.
abbrev pub limit_of : ℤ → ℕ
limit_of (pos n) = n
limit_of (negsuc n) = 0

abbrev pub last_limit_of : Option ℤ → ℕ
last_limit_of none = 0
last_limit_of (some n) = limit_of n

length-paths-take : (n : ℕ) (rs : List RecordRef) → length (paths (take n rs)) ≤ n
length-paths-take zero rs = omega arith
length-paths-take (suc n) [] = omega arith
length-paths-take (suc n) (r ∷ rs) = omega (arith, length-paths-take n rs)

length-last_paths :
    (limit : Option ℤ) (rs : List RecordRef) → length (last_paths limit rs) ≤ last_limit_of limit
unfolding last_paths
length-last_paths none rs = omega arith
length-last_paths (some (pos n)) rs = length-paths-take n rs
length-last_paths (some (negsuc n)) rs = omega arith

length-bucket_paths :
    (kind : Kind) (limit : ℤ) (rs : List RecordRef)
    → length (bucket_paths kind limit rs) ≤ limit_of limit
unfolding bucket_paths
length-bucket_paths kind (pos n) rs = length-paths-take n (firsts kind rs [])
length-bucket_paths kind (negsuc n) rs = omega arith

append_le :
    (ps qs : List Text) (a b : ℕ) → length ps ≤ a → length qs ≤ b → length (ps ++ qs) ≤ a + b
append_le ps qs a b h g = omega (arith, length-append ps qs)

-- The counters of a policy, added up.
abbrev pub total_limit : RetentionPolicy → ℕ
total_limit policy =
    last_limit_of policy.keep_last_n
    + limit_of policy.keep_hourly
    + limit_of policy.keep_daily
    + limit_of policy.keep_weekly
    + limit_of policy.keep_monthly
    + limit_of policy.keep_yearly

length-kept_paths :
    (policy : RetentionPolicy) (newest : List RecordRef)
    → length (kept_paths policy newest) ≤ total_limit policy
unfolding kept_paths
length-kept_paths policy newest =
    append_le _ _ _ _
      (append_le _ _ _ _
        (append_le _ _ _ _
          (append_le _ _ _ _
            (append_le _ _ _ _ (length-last_paths policy.keep_last_n newest)
              (length-bucket_paths hourly policy.keep_hourly newest))
            (length-bucket_paths daily policy.keep_daily newest))
          (length-bucket_paths weekly policy.keep_weekly newest))
        (length-bucket_paths monthly policy.keep_monthly newest))
      (length-bucket_paths yearly policy.keep_yearly newest)

-- Under a policy that does not keep all, select_retained keeps no more paths than its counters add up
-- to, where the calendar has every record's date.
pub select_retained-length :
    (records : List RecordRef) (policy : RetentionPolicy) (kept : List Text)
    → All IsDated records
    → is_keep_all policy ≡ false
    → select_retained records policy ≡ ok kept
    → length kept ≤ total_limit policy
select_retained-length records policy kept dated partial h =
    let newest = newest_first records in
    let e = kept_of records policy kept dated h in
    let same : kept_paths policy newest ≡ kept =
      sym (ap (λ b. if b then paths records else kept_paths policy newest) partial) ∙ e in
    subst (λ k. length k ≤ total_limit policy) same (length-kept_paths policy newest)

In-append :
    (p : Text) (ps qs : List Text) (a b : ℕ)
    → (1 ≤ a → In p ps)
    → (1 ≤ b → In p qs)
    → 1 ≤ a + b
    → In p (ps ++ qs)
In-append p ps qs a b f g h = elim (Bool-cases (ltb 0 a)) [
  | inl some_a ↦ In-append_left p ps qs (f (ground arith))
  | inr no_a ↦ In-append_right p ps qs (g (ground arith))
]
  where
    In-append_left : (p : Text) (ps qs : List Text) → In p ps → In p (ps ++ qs)
    In-append_left p [] qs h = elim h [ ]
    In-append_left p (q ∷ ps) qs (inl e) = inl e
    In-append_left p (q ∷ ps) qs (inr h) = inr (In-append_left p ps qs h)

    In-append_right : (p : Text) (ps qs : List Text) → In p qs → In p (ps ++ qs)
    In-append_right p [] qs h = h
    In-append_right p (q ∷ ps) qs h = inr (In-append_right p ps qs h)

bucket_paths-head :
    (kind : Kind) (limit : ℤ) (m : RecordRef) (tail : List RecordRef)
    → 1 ≤ limit_of limit
    → In m.path (bucket_paths kind limit (m ∷ tail))
unfolding bucket_paths firsts mem_text
bucket_paths-head kind (pos zero) m tail h = absurd (omega arith)
bucket_paths-head kind (pos (suc n)) m tail h = inl refl
bucket_paths-head kind (negsuc n) m tail h = absurd (omega arith)

last_paths-head :
    (limit : Option ℤ) (m : RecordRef) (tail : List RecordRef)
    → 1 ≤ last_limit_of limit
    → In m.path (last_paths limit (m ∷ tail))
unfolding last_paths
last_paths-head none m tail h = absurd (omega arith)
last_paths-head (some (pos zero)) m tail h = absurd (omega arith)
last_paths-head (some (pos (suc n))) m tail h = inl refl
last_paths-head (some (negsuc n)) m tail h = absurd (omega arith)

kept_paths-head :
    (policy : RetentionPolicy) (m : RecordRef) (tail : List RecordRef)
    → 1 ≤ total_limit policy
    → In m.path (kept_paths policy (m ∷ tail))
unfolding kept_paths
kept_paths-head policy m tail =
    In-append m.path _ _ _ _
      (In-append m.path _ _ _ _
        (In-append m.path _ _ _ _
          (In-append m.path _ _ _ _
            (In-append m.path _ _ _ _ (last_paths-head policy.keep_last_n m tail)
              (bucket_paths-head hourly policy.keep_hourly m tail))
            (bucket_paths-head daily policy.keep_daily m tail))
          (bucket_paths-head weekly policy.keep_weekly m tail))
        (bucket_paths-head monthly policy.keep_monthly m tail))
      (bucket_paths-head yearly policy.keep_yearly m tail)

-- Where a counter of the policy is positive and there is a record, select_retained keeps one of the
-- records that no record is newer than, where the calendar has every record's date.
pub select_retained-newest :
    (r : RecordRef) (rs : List RecordRef) (policy : RetentionPolicy) (kept : List Text)
    → All IsDated (r ∷ rs)
    → 1 ≤ total_limit policy
    → select_retained (r ∷ rs) policy ≡ ok kept
    → (m : RecordRef) × In m (r ∷ rs) × In m.path kept × All (IsNotNewer m) (r ∷ rs)
select_retained-newest r rs policy kept dated positive h =
    let (m, tail, e, all) = newest_first_lem r rs in
    let head =
      subst (λ l. In m.path (kept_paths policy l)) (sym e)
        (kept_paths-head policy m tail positive) in
    let (here, rest) =
      subst (All (λ s. In s.path (paths (r ∷ rs)))) e
        (All-newest_first (λ s. In s.path (paths (r ∷ rs))) (r ∷ rs) (records-In (r ∷ rs))) in
    let (one_of, others) =
      subst (All (λ s. In s (r ∷ rs))) e
        (All-newest_first (λ s. In s (r ∷ rs)) (r ∷ rs) (All-In (r ∷ rs))) in
    (
      m,
      one_of,
      subst (In m.path) (kept_of (r ∷ rs) policy kept dated h) (
          if_ind (In m.path) (is_keep_all policy) (paths (r ∷ rs))
            (kept_paths policy (newest_first (r ∷ rs))) here head),
      all,
    )
