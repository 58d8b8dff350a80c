-- ===== src/Gc/PruneKeeps.antt =====
-- `prune_records` deletes records only that its policy does not keep, and accounts for every record.
use arq_backup_tui.Common.{
  arith, ◌≡◌, refl, Bool, true, false, none, some, Option-cases, List, [], ◌∷◌, ◌++◌, append_assoc,
  append-nil, inl, inr, Bool-cases, if◌then◌else◌, mem_text, Has, Has-cons_self, Has-cons_of_Has,
  sym, ◌∙◌, subst, ◌⊎◌,
}
use arq_backup_tui.Wire.Types.{Text}
use arq_backup_tui.Retention.Select.{RecordRef}
use arq_backup_tui.Backend.{Backend}
use arq_backup_tui.Gc.Sweep.{remove}
use arq_backup_tui.Gc.Deletes.{Deletes, step, Deletes-refl, Deletes-trans, Deletes-mono}
use arq_backup_tui.Gc.Prune.{PruneRecordsResult, prune_failed, prune_record, prune_refs}

-- The paths of the records, those that are in a set, and those that are not.
abbrev pub paths_of : List RecordRef → List Text
paths_of [] = []
paths_of (ref ∷ refs) = ref.path ∷ paths_of refs

unfoldable pub kept_in : List Text → List RecordRef → List Text
kept_in keep [] = []
kept_in keep (ref ∷ refs) =
    let rest = kept_in keep refs in if mem_text ref.path keep then ref.path ∷ rest else rest

-- The paths of the records that the set leaves out.
unfoldable pub left_out : List Text → List RecordRef → List Text
left_out keep [] = []
left_out keep (ref ∷ refs) =
    let rest = left_out keep refs in if mem_text ref.path keep then rest else ref.path ∷ rest

-- The third list is the first two, mixed, each in its order.
pub data Mixes : List Text → List Text → List Text → Type 0 where
  nil : Mixes [] [] []
  to_left : {t : Text} {xs ys zs : List Text} → Mixes xs ys zs → Mixes (t ∷ xs) ys (t ∷ zs)
  to_right : {t : Text} {xs ys zs : List Text} → Mixes xs ys zs → Mixes xs (t ∷ ys) (t ∷ zs)

only_first :
    (path : Text) (ref : RecordRef) (refs : List RecordRef)
    → Has (ref.path ∷ []) path
    → Has (ref.path ∷ paths_of refs) path
unfolding mem_text
only_first path ref refs h = ground arith

-- A removal that fails, or that deletes the one file unless the run is dry.
remove-cases :
    {State : Type 0} (b : Backend State) (dry_run : Bool) (s : State) (path : Text)
    → (remove b dry_run s path ≡ none)
      ⊎ ((s' : State) × (remove b dry_run s path ≡ some s')
          × Deletes b (λ q. (dry_run ≡ false) × (q ≡ path)) s s')
unfolding remove
remove-cases b true s path = inr (s, refl, Deletes-refl b s)
remove-cases b false s path = elim (Option-cases (b.unlink s path)) [
  | inl e ↦ inl e
  | inr (s', e) ↦ inr (s', e, step path (refl, refl) e (Deletes-refl b s'))
]

module _ {State : Type 0} (b : Backend State) (dry_run : Bool) (keep : List Text) where
  -- A record that the set leaves out, in a run that deletes.
  abbrev pub LeftOut : List RecordRef → Text → Type 0
  LeftOut refs path = (dry_run ≡ false) × Has (paths_of refs) path × (mem_text path keep ≡ false)

  prune_record-Deletes :
      (ref : RecordRef) (a : State × PruneRecordsResult)
      → Deletes b (LeftOut (ref ∷ [])) a.0 (prune_record b dry_run keep ref.path a).0
  unfolding prune_record
  prune_record-Deletes ref (s, r) = elim (Bool-cases (mem_text ref.path keep)) [
    | inl kept ↦ rw (kept, prune_record) (Deletes-refl b s)
    | inr left ↦ elim (remove-cases b dry_run s ref.path) [
      | inl none_e ↦ rw (left, none_e, prune_record) (Deletes-refl b s)
      | inr (s', some_e, d) ↦
          rw (left, some_e, prune_record)
            (Deletes-mono b
              (λ path (wet, same). (
                wet,
                subst (Has (ref.path ∷ [])) (sym same) (Has-cons_self ref.path []),
                subst (λ t. mem_text t keep ≡ false) (sym same) left,
              ))
              d)
    ]
  ]

  pub prune_refs-Deletes :
      (refs : List RecordRef) (a : State × PruneRecordsResult)
      → Deletes b (LeftOut refs) a.0 (prune_refs b dry_run keep refs a).0
  unfolding prune_refs
  prune_refs-Deletes [] a = Deletes-refl b a.0
  prune_refs-Deletes (ref ∷ refs) a =
      Deletes-trans b
        (Deletes-mono b (λ path (wet, h, left). (wet, only_first path ref refs h, left))
          (prune_record-Deletes ref a))
        (Deletes-mono b
          (λ path (wet, h, left). (wet, Has-cons_of_Has path ref.path (paths_of refs) h, left))
          (prune_refs-Deletes refs (prune_record b dry_run keep ref.path a)))

  -- What the loop has added to a result: the paths of the kept records, and of the others those that are
  -- deleted and those whose deletion failed.
  pub record Reports (refs : List RecordRef) (r r' : PruneRecordsResult) : Type 0 where
    pub gone : List Text
    pub failed : List Text
    pub retained : r'.retained ≡ r.retained ++ kept_in keep refs
    pub deleted : r'.deleted ≡ r.deleted ++ gone
    pub failures : r'.failures ≡ r.failures ++ failed
    pub mixed : Mixes gone failed (left_out keep refs)

  step-Reports :
      (ref : RecordRef) (refs : List RecordRef) (s : State) (r r' : PruneRecordsResult)
      → Reports refs (prune_record b dry_run keep ref.path (s, r)).1 r'
      → Reports (ref ∷ refs) r r'
  unfolding prune_record kept_in left_out prune_failed
  step-Reports ref refs s r r' h = elim (Bool-cases (mem_text ref.path keep)) [
    | inl kept ↦
        let rest : Reports refs (record r { retained = r.retained ++ ref.path ∷ [] }) r' =
          rw (kept, prune_record) at h in
        record {
          gone = rest.gone;
          failed = rest.failed;
          retained =
              rw kept (rest.retained ∙ append_assoc r.retained (ref.path ∷ []) (kept_in keep refs));
          deleted = rest.deleted;
          failures = rest.failures;
          mixed = rw kept rest.mixed;
        }
    | inr out ↦ elim (remove-cases b dry_run s ref.path) [
      | inl none_e ↦
          let rest : Reports refs (record r { failures = r.failures ++ ref.path ∷ [] }) r' =
            rw (out, none_e, prune_record) at h in
          record {
            gone = rest.gone;
            failed = ref.path ∷ rest.failed;
            retained = rw out rest.retained;
            deleted = rest.deleted;
            failures = rest.failures ∙ append_assoc r.failures (ref.path ∷ []) rest.failed;
            mixed = rw out (to_right rest.mixed);
          }
      | inr (s', some_e, d) ↦
          let rest : Reports refs (record r { deleted = r.deleted ++ ref.path ∷ [] }) r' =
            rw (out, some_e, prune_record) at h in
          record {
            gone = ref.path ∷ rest.gone;
            failed = rest.failed;
            retained = rw out rest.retained;
            deleted = rest.deleted ∙ append_assoc r.deleted (ref.path ∷ []) rest.gone;
            failures = rest.failures;
            mixed = rw out (to_left rest.mixed);
          }
    ]
  ]

  -- The loop over the records of a folder reports the paths of those that the set keeps, in their order, and
  -- the path of each of the others once, as deleted or as failed, each of these in their order.
  pub prune_refs-Reports :
      (refs : List RecordRef) (s : State) (r : PruneRecordsResult)
      → Reports refs r (prune_refs b dry_run keep refs (s, r)).1
  unfolding prune_refs kept_in left_out
  prune_refs-Reports [] s r = record {
    gone = [];
    failed = [];
    retained = sym (append-nil r.retained);
    deleted = sym (append-nil r.deleted);
    failures = sym (append-nil r.failures);
    mixed = nil;
  }
  prune_refs-Reports (ref ∷ refs) s r =
      let a = prune_record b dry_run keep ref.path (s, r) in
      step-Reports ref refs s r (prune_refs b dry_run keep (ref ∷ refs) (s, r)).1
        (prune_refs-Reports refs a.0 a.1)
