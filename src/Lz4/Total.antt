-- ===== src/Lz4/Total.antt =====
-- The loops of `lz4_block_decompress` end, and a result has the expected size.
use arq_backup_tui.Common.{
  ℕ, zero, suc, ◌≤◌, ◌≡◌, ◌≢◌, refl, Option, none, some, List, [], ◌∷◌, arith, length, length-drop,
  drop, ltb, ◌==◌, Bool, true, false, ◌+◌, ◌*◌, ◌/◌, ◌%◌, ◌++◌, take, if◌then◌else◌,
}
use arq_backup_tui.Common.Result.{Result, ok, err, ◌>>=◌}
use arq_backup_tui.Lz4.Decompress.{
  Lz4Error, stuck, extend_length, read_length, read_match, read_sequence, decompress_loop,
  check_size, lz4_block_decompress, Progress, finished, going,
}

extend_length-shorter : (acc : ℕ) (bs : List ℕ) → length (extend_length acc bs).1 ≤ length bs
unfolding extend_length
extend_length-shorter acc [] = omega arith
extend_length-shorter acc (b ∷ bs) = ground (arith, extend_length-shorter (acc + b) bs)

read_length-shorter : (n : ℕ) (bs : List ℕ) → length (read_length n bs).1 ≤ length bs
unfolding read_length
read_length-shorter n bs = ground (arith, extend_length-shorter n bs)

-- What a round may answer: no `stuck`, and no more bytes left than it was given.
abbrev Shrinks : ℕ → Result Lz4Error Progress → Type 0
Shrinks n (err e) = e ≢ stuck
Shrinks n (ok (finished out)) = Unit
Shrinks n (ok (going block out)) = length block ≤ n

Shrinks-if :
    (n : ℕ) (b : Bool) (r s : Result Lz4Error Progress)
    → Shrinks n r
    → Shrinks n s
    → Shrinks n (if b then r else s)
Shrinks-if n true r s p q = p
Shrinks-if n false r s p q = q

Shrinks-le : (m n : ℕ) (r : Result Lz4Error Progress) → m ≤ n → Shrinks m r → Shrinks n r
Shrinks-le m n (err e) h p = p
Shrinks-le m n (ok (finished out)) h p = tt
Shrinks-le m n (ok (going block out)) h p = omega arith

read_match-Shrinks : (token : ℕ) (bs out : List ℕ) → Shrinks (length bs) (read_match token bs out)
unfolding read_match
read_match-Shrinks token [] out = tt
read_match-Shrinks token (b0 ∷ []) out = λ e. cc
read_match-Shrinks token (b0 ∷ b1 ∷ bs) out =
    Shrinks-if _ (b0 + b1 * 256 == 0) _ _ (λ e. cc)
      (Shrinks-if _ (ltb (length out) (b0 + b1 * 256)) _ _ (λ e. cc)
        (omega (arith, read_length-shorter (token % 16) bs)))

read_sequence-Shrinks :
    (token : ℕ) (block out : List ℕ) → Shrinks (length block) (read_sequence token block out)
unfolding read_sequence
read_sequence-Shrinks token block out =
    let nibble = token / 16 % 16 in
    let (count, rest) = read_length nibble block in
    Shrinks-if _ (ltb (length rest) count) _ _ (λ e. cc)
      (Shrinks-le (length (drop count rest)) (length block) _
        (omega (arith, length-drop count rest, read_length-shorter nibble block))
        (read_match-Shrinks token (drop count rest) (out ++ take count rest)))

loop_step :
    (fuel token : ℕ) (block out : List ℕ) (r : Result Lz4Error Progress)
    → read_sequence token block out ≡ r
    → Shrinks (length block) r
    → ((block' out' : List ℕ) → length block' ≤ fuel → decompress_loop fuel block' out' ≢ err stuck)
    → length block ≤ fuel
    → decompress_loop (suc fuel) (token ∷ block) out ≢ err stuck
unfolding decompress_loop
loop_step fuel token block out (err x) e s ih h = rw (e, decompress_loop) (λ q. s (cc (q)))
loop_step fuel token block out (ok (finished out')) e s ih h = rw (e, decompress_loop) (λ q. cc)
loop_step fuel token block out (ok (going block' out')) e s ih h =
    rw (e, decompress_loop) (ih block' out' (omega arith))

decompress_loop-ne-stuck :
    (fuel : ℕ) (block out : List ℕ)
    → length block ≤ fuel
    → decompress_loop fuel block out ≢ err stuck
decompress_loop-ne-stuck fuel [] out h = unfold decompress_loop in λ e. cc
decompress_loop-ne-stuck zero (token ∷ block) out h = absurd (omega arith)
decompress_loop-ne-stuck (suc fuel) (token ∷ block) out h =
    loop_step fuel token block out _ refl (read_sequence-Shrinks token block out)
      (λ block' out' k. decompress_loop-ne-stuck fuel block' out' k) (omega arith)

check_size-ne-stuck : (expected : Option ℕ) (out : List ℕ) → check_size expected out ≢ err stuck
unfolding check_size
check_size-ne-stuck none out e = cc
check_size-ne-stuck (some n) out e = ground arith

-- On any block the decoder ends: it answers a result or raises.
pub lz4_block_decompress-ne-stuck :
    (block : List ℕ) (expected : Option ℕ) → lz4_block_decompress block expected ≢ err stuck
unfolding lz4_block_decompress
lz4_block_decompress-ne-stuck block expected =
    go (decompress_loop (length block) block [])
      (decompress_loop-ne-stuck (length block) block [] (omega arith))
  where
    go :
        (r : Result Lz4Error (List ℕ))
        → r ≢ err stuck
        → (r >>= λ out. check_size expected out) ≢ err stuck
    go (ok out) h = check_size-ne-stuck expected out
    go (err x) h = λ e. h (cc (e))

-- A result has the expected size, where one was asked for.
pub length-lz4_block_decompress :
    (block : List ℕ) (n : ℕ) (out : List ℕ)
    → lz4_block_decompress block (some n) ≡ ok out
    → length out ≡ n
unfolding lz4_block_decompress check_size
length-lz4_block_decompress block n out e = ground arith
