-- ===== src/Retention/Keeps.antt =====
-- Membership in a list of records, and what `select_retained` has returned.
use arq_backup_tui.Common.{In, ◌≡◌, refl, List, [], ◌∷◌, All, inl, inr, if◌then◌else◌}
use arq_backup_tui.Common.Result.{ok}
use arq_backup_tui.Wire.Types.{Text}
use arq_backup_tui.Retention.Select.{
  RetentionPolicy, RecordRef, is_keep_all, newest_first, select_retained,
}
use arq_backup_tui.Retention.Reference.{IsDated, paths, kept_paths, select_retained-newest_first}

All-In_more :
    {A : Type 0} (q : A) (qs ps : List A) → All (λ p. In p qs) ps → All (λ p. In p (q ∷ qs)) ps
All-In_more q qs [] h = tt
All-In_more q qs (p ∷ ps) (h, hs) = (inr h, All-In_more q qs ps hs)

pub All-In : {A : Type 0} (ps : List A) → All (λ p. In p ps) ps
All-In [] = tt
All-In (p ∷ ps) = (inl refl, All-In_more p ps ps (All-In ps))

All-paths_to : (Q : Text → Type 0) (rs : List RecordRef) → All Q (paths rs) → All (λ r. Q r.path) rs
All-paths_to Q [] h = tt
All-paths_to Q (r ∷ rs) (h, hs) = (h, All-paths_to Q rs hs)

pub records-In : (records : List RecordRef) → All (λ r. In r.path (paths records)) records
records-In records = All-paths_to (λ p. In p (paths records)) records (All-In (paths records))

pub kept_of :
    (records : List RecordRef) (policy : RetentionPolicy) (kept : List Text)
    → All IsDated records
    → select_retained records policy ≡ ok kept
    → (if is_keep_all policy then paths records else kept_paths policy (newest_first records))
      ≡ kept
kept_of records policy kept dated h =
    let e = select_retained-newest_first records policy dated in cc
