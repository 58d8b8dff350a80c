-- ===== src/Lz4/Copy.antt =====
-- The match copy of `lz4_block_decompress`, overlapping matches included.
use arq_backup_tui.Common.{
  ℕ, zero, suc, ◌+◌, ◌<◌, ◌≡◌, refl, sym, ◌∙◌, List, [], ◌∷◌, ◌++◌, arith, length, length-append,
  get_or,
}
use arq_backup_tui.Lz4.Decompress.{copy_match}

get_or-append : (xs ys : List ℕ) (i : ℕ) → i < length xs → get_or (xs ++ ys) i 0 ≡ get_or xs i 0
get_or-append [] ys i h = absurd (omega arith)
get_or-append (x ∷ xs) ys zero h = refl
get_or-append (x ∷ xs) ys (suc i) h = get_or-append xs ys i (omega arith)

get_or-append_last : (xs : List ℕ) (v i : ℕ) → i ≡ length xs → get_or (xs ++ v ∷ []) i 0 ≡ v
get_or-append_last [] v i h = rw h
get_or-append_last (x ∷ xs) v zero h = absurd (omega arith)
get_or-append_last (x ∷ xs) v (suc i) h = get_or-append_last xs v i (omega arith)

length-copy_match :
    (count from : ℕ) (out : List ℕ) → length (copy_match count from out) ≡ length out + count
unfolding copy_match
length-copy_match zero from out = omega arith
length-copy_match (suc count) from out =
    let next = out ++ get_or out from 0 ∷ [] in
    omega
      (arith, length-copy_match count (suc from) next, length-append out (get_or out from 0 ∷ []))

copy_match-prefix :
    (count from : ℕ) (out : List ℕ) (i : ℕ)
    → i < length out
    → get_or (copy_match count from out) i 0 ≡ get_or out i 0
unfolding copy_match
copy_match-prefix zero from out i h = refl
copy_match-prefix (suc count) from out i h =
    let last = get_or out from 0 ∷ [] in
    copy_match-prefix count (suc from) (out ++ last) i (omega (arith, length-append out last))
    ∙ get_or-append out last i h

copy_match-source :
    (count from : ℕ) (out : List ℕ) (k i j : ℕ)
    → from < length out
    → k < count
    → i ≡ length out + k
    → j ≡ from + k
    → get_or (copy_match count from out) i 0 ≡ get_or (copy_match count from out) j 0
unfolding copy_match
copy_match-source zero from out k i j h l ei ej = absurd (omega arith)
copy_match-source (suc count) from out zero i j h l ei ej =
    let last = get_or out from 0 ∷ [] in
    let e : i ≡ length out = omega arith in
    let e' : j ≡ from = omega arith in
    rw (e, e')
      (copy_match-prefix count (suc from) (out ++ last) (length out)
          (omega (arith, length-append out last))
        ∙ get_or-append_last out (get_or out from 0) (length out) refl
        ∙ sym (
            copy_match-prefix count (suc from) (out ++ last) from
              (omega (arith, length-append out last))
            ∙ get_or-append out last from h))
copy_match-source (suc count) from out (suc k) i j h l ei ej =
    let last = get_or out from 0 ∷ [] in
    copy_match-source count (suc from) (out ++ last) k i j (omega (arith, length-append out last))
      (omega arith) (omega (arith, length-append out last)) (omega arith)

-- A match of `count` bytes from `offset` bytes back keeps what was written, adds `count` bytes, and
-- makes each of them the byte `offset` places before it in the result: also where the match runs into
-- the bytes that it writes.
pub copy_match_lem :
    (count offset : ℕ) (out : List ℕ) (from : ℕ)
    → 0 < offset
    → from + offset ≡ length out
    → (length (copy_match count from out) ≡ length out + count)
      × ((i : ℕ) → i < length out → get_or (copy_match count from out) i 0 ≡ get_or out i 0)
      × ((k : ℕ)
          → k < count
          → get_or (copy_match count from out) (length out + k) 0
            ≡ get_or (copy_match count from out) (from + k) 0)
copy_match_lem count offset out from h e = (
  length-copy_match count from out,
  (λ i l. copy_match-prefix count from out i l),
  (λ k l. copy_match-source count from out k (length out + k) (from + k) (omega arith) l refl refl),
)
