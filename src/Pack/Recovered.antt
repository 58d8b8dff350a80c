-- ===== src/Pack/Recovered.antt =====
-- The index of a pack of encrypted objects gives back where each of them lies.
use arq_backup_tui.Common.{
  ℕ, zero, suc, ◌+◌, ◌-◌, ◌≤◌, ◌<◌, ◌≡◌, refl, sym, ap, subst, ◌∙◌, true, false, some, List, [],
  ◌∷◌, ◌++◌, arith, All, length, length-append, length-drop, take, drop, ltb, list_eq_refl, ◌==◌,
  inl, inr,
}
use mathlib.Core.List.{flatten}
use arq_backup_tui.Common.Slices.{take-append_le}
use arq_backup_tui.Common.Result.{ok}
use arq_backup_tui.Crypto.Object.{arqo_magic}
use arq_backup_tui.Pack.Index.{PackEntry, is_aligned, whole_entry, index_loop, reconstruct_index}
use arq_backup_tui.Pack.Objects.{
  IsObject, Follows, aligned_size, drop_behind, length_pack, find_end_object,
}

-- Objects that lie back to back from `start` on.
abbrev pub entries_from : ℕ → List (List ℕ) → List PackEntry
entries_from start [] = []
entries_from start (o ∷ os) = whole_entry start (length o) ∷ entries_from (start + length o) os

flatten-Follows : (os : List (List ℕ)) → All IsObject os → Follows (flatten os)
unfolding flatten
flatten-Follows [] h = inl refl
flatten-Follows (o ∷ os) (object, h) =
    let (a, b) = aligned_size (length o - 116) object.size in
    inr (take-append_le 4 o (flatten os) (omega arith) ∙ object.magic)

index_loop_objects :
    (pack : List ℕ) (fuel start : ℕ) (os : List (List ℕ))
    → drop start pack ≡ flatten os
    → All IsObject os
    → start ≤ length pack
    → length pack < fuel + start
    → index_loop pack fuel start ≡ some (entries_from start os)
unfolding index_loop
index_loop_objects pack zero start os e h l f = absurd (omega arith)
index_loop_objects pack (suc fuel) start [] e h l f =
    let n = ap length e in
    let d = length-drop start pack in
    let past : ltb start (length pack) ≡ false = unfold flatten in ground arith in
    rw (past, index_loop) refl
index_loop_objects pack (suc fuel) start (o ∷ os) e (object, h) l f =
    let here : drop start pack ≡ o ++ flatten os = unfold flatten in e in
    let follows = flatten-Follows os h in
    let (a, b) = aligned_size (length o - 116) object.size in
    let n = length_pack pack o (flatten os) start here object follows l in
    let inside : ltb start (length pack) ≡ true = ground arith in
    let long : ltb (length pack) (start + 116) ≡ false = ground arith in
    let stop =
      find_end_object pack o (flatten os) start here object follows (length pack) (start + 1)
        (omega arith) (omega arith) l (omega arith) in
    let size : length o ≡ start + length o - start = omega arith in
    let fits = subst (λ k. is_aligned (k - 116) ≡ true) size object.size in
    let behind = drop_behind pack o (flatten os) start here object follows in
    rw (inside, index_loop)
      (rw long (
        rw stop (
          rw fits (
            rw
              (index_loop_objects pack fuel (start + length o) os behind h (omega arith)
                (omega arith))
              (ap (λ k. some (whole_entry start k ∷ entries_from (start + length o) os))
                (sym size))))))

-- The index of objects that stand back to back, with nothing between them, is one whole entry for each,
-- at its offset and with its length, where each object has the magic, a header, one or more whole blocks,
-- and no magic inside at a place where what is before it has that shape too.
pub reconstruct_index-flatten :
    (os : List (List ℕ)) → All IsObject os → reconstruct_index (flatten os) ≡ ok (entries_from 0 os)
unfolding reconstruct_index
reconstruct_index-flatten [] h = unfold flatten in refl
reconstruct_index-flatten (o ∷ os) (object, h) =
    let pack = flatten (o ∷ os) in
    let (a, b) = aligned_size (length o - 116) object.size in
    let len = length-append o (flatten os) in
    let long : (length pack == 0) ≡ false = unfold flatten in ground arith in
    let magic : take 4 pack ≡ arqo_magic =
      unfold flatten in (take-append_le 4 o (flatten os) (omega arith) ∙ object.magic) in
    rw long (
      rw magic (
        rw (list_eq_refl arqo_magic) (
          rw
            (index_loop_objects pack (length pack + 1) 0 (o ∷ os) refl (object, h) (omega arith)
              (omega arith))
            refl)))
