-- ===== src/Chunker/FixedBounds.antt =====
-- The chunks of `FixedChunker`.
use arq_backup_tui.Common.{
  ℕ, zero, suc, ◌+◌, ◌≤◌, ◌<◌, ◌≡◌, List, arith, length, ltb, ltb→lt, Bool-cases, inl, inr,
}
use arq_backup_tui.Common.Result.{ok}
use arq_backup_tui.Chunker.Fixed.{fixed_chunker, fixed_end, fixed_loop, fixed_chunk}
use arq_backup_tui.Chunker.Splits.{EndsWell, Splits, Splits-step, Splits-end}

fixed_end-EndsWell :
    (chunk_size n offset : ℕ)
    → 1 ≤ chunk_size
    → offset < n
    → EndsWell chunk_size chunk_size n offset (fixed_end chunk_size n offset)
unfolding fixed_end
fixed_end-EndsWell chunk_size n offset v l = ground arith

fixed_loop-Splits :
    (chunk_size : ℕ) (input : List ℕ) (fuel offset : ℕ)
    → 1 ≤ chunk_size
    → offset ≤ length input
    → length input < fuel + offset
    → Splits chunk_size chunk_size input offset (fixed_loop chunk_size input fuel offset)
unfolding fixed_loop
fixed_loop-Splits chunk_size input zero offset v l f = absurd (omega arith)
fixed_loop-Splits chunk_size input (suc fuel) offset v l f =
    elim (Bool-cases (ltb offset (length input))) [
      | inl more ↦
          let ends =
            fixed_end-EndsWell chunk_size (length input) offset v
              (ltb→lt offset (length input) more) in
          let stop = fixed_end chunk_size (length input) offset in
          rw more (
            Splits-step chunk_size chunk_size input offset stop
              (fixed_loop chunk_size input fuel stop) ends
              (fixed_loop-Splits chunk_size input fuel stop v ends.1 (omega (arith, ends.0))))
      | inr done ↦ rw done (Splits-end chunk_size chunk_size input offset (ground arith))
    ]

-- For a chunk size that the constructor accepts, the fixed chunker ends, its chunks put together are
-- the input, and all of them have exactly the chunk size but the last, which is not empty or longer.
pub fixed_chunk-Splits :
    (chunk_size : ℕ) (input : List ℕ)
    → fixed_chunker chunk_size ≡ ok chunk_size
    → Splits chunk_size chunk_size input 0 (fixed_chunk chunk_size input)
unfolding fixed_chunk fixed_chunker
fixed_chunk-Splits chunk_size input v =
    fixed_loop-Splits chunk_size input (length input + 1) 0 (ground arith) (omega arith)
      (omega arith)
