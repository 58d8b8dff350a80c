-- ===== src/Pack/Summary.antt =====
-- `pack_summary` accounts for every byte of the pack.
use arq_backup_tui.Common.{
  ℕ, ◌+◌, ◌≤◌, ◌≡◌, refl, ap, subst, ◌⊎◌, Bool, true, false, List, [], ◌∷◌, arith, length, inl, inr,
  if◌then◌else◌,
}
use arq_backup_tui.Common.Result.{Result, ok, err}
use arq_backup_tui.Pack.Index.{
  PackEntry, PackSummary, IndexError, payload_of, last_truncated, reconstruct_index, summary_of,
  pack_summary,
}
use arq_backup_tui.Pack.Tiles.{Tiles, IsIndex, reconstruct_index-IsIndex}

last_payload :
    (torn : Bool) (start size total : ℕ)
    → start + size ≡ total
    → (start + ((if torn then 0 else size) + 0) ≤ total)
      × ((torn ≡ true) ⊎ (start + ((if torn then 0 else size) + 0) ≡ total))
last_payload true start size total t = (omega arith, inl refl)
last_payload false start size total t = (omega arith, inr (omega arith))

payload_whole :
    (e : PackEntry) (es : List PackEntry)
    → e.truncated ≡ false
    → payload_of (e ∷ es) ≡ e.length + payload_of es
unfolding payload_of
payload_whole e es h = ap (λ b. (if b then 0 else e.length) + payload_of es) h

more_payload :
    (e d : PackEntry) (es : List PackEntry) (total start : ℕ)
    → payload_of (e ∷ d ∷ es) ≡ e.length + payload_of (d ∷ es)
    → (last_truncated (d ∷ es) ≡ true) ⊎ (start + e.length + payload_of (d ∷ es) ≡ total)
    → (last_truncated (e ∷ d ∷ es) ≡ true) ⊎ (start + payload_of (e ∷ d ∷ es) ≡ total)
more_payload e d es total start step (inl torn) = inl (unfold last_truncated in torn)
more_payload e d es total start step (inr full) = inr (omega arith)

payload_of-Tiles :
    (total start : ℕ) (entries : List PackEntry)
    → Tiles total start entries
    → (start + payload_of entries ≤ total)
      × ((last_truncated entries ≡ true) ⊎ (start + payload_of entries ≡ total))
payload_of-Tiles total start [] e = unfold payload_of in (omega arith, inr (omega arith))
payload_of-Tiles total start (e ∷ []) (o, n, shape, t) =
    unfold payload_of last_truncated in last_payload e.truncated start e.length total t
payload_of-Tiles total start (e ∷ d ∷ es) (o, n, inr (torn, last), t) = cc
payload_of-Tiles total start (e ∷ d ∷ es) (o, n, inl (whole, size, blocks), t) =
    let (below, full) = payload_of-Tiles total (start + e.length) (d ∷ es) t in
    let step = payload_whole e (d ∷ es) whole in
    (omega arith, more_payload e d es total start step full)

-- Where pack_summary returns, the payload is no more than the size, and is all of it unless the last
-- entry is truncated.
pub pack_summary-accounts :
    (pack : List ℕ) (s : PackSummary)
    → pack_summary pack ≡ ok s
    → (s.total_size ≡ length pack)
      × (s.payload_bytes ≤ length pack)
      × ((s.truncated_tail ≡ true) ⊎ (s.payload_bytes ≡ length pack))
unfolding pack_summary
pack_summary-accounts pack s h =
    of_index (reconstruct_index pack) (reconstruct_index-IsIndex pack) h
  where
    of_full :
        (entries : List PackEntry)
        → (last_truncated entries ≡ true) ⊎ (0 + payload_of entries ≡ length pack)
        → (last_truncated entries ≡ true) ⊎ (payload_of entries ≡ length pack)
    of_full entries (inl torn) = inl torn
    of_full entries (inr full) = inr (omega arith)

    of_index :
        (r : Result IndexError (List PackEntry))
        → IsIndex pack r
        → (elim r [ ok entries ↦ ok (summary_of pack entries) | err raised ↦ err raised ]) ≡ ok s
        → (s.total_size ≡ length pack)
          × (s.payload_bytes ≤ length pack)
          × ((s.truncated_tail ≡ true) ⊎ (s.payload_bytes ≡ length pack))
    of_index (err raised) t h = cc
    of_index (ok entries) t h =
        let same : summary_of pack entries ≡ s = cc in
        subst
          (λ q.
            (q.total_size ≡ length pack)
            × (q.payload_bytes ≤ length pack)
            × ((q.truncated_tail ≡ true) ⊎ (q.payload_bytes ≡ length pack)))
          same
          (unfold summary_of in
            let (below, full) = payload_of-Tiles (length pack) 0 entries t in
            (refl, omega arith, of_full entries full))
