-- ===== src/Chunker/Fixed.antt =====
-- `FixedChunker`.
use arq_backup_tui.Common.{
  ℕ, zero, suc, ◌+◌, ◌-◌, Option, none, some, List, [], length, cons_some, ltb, if◌then◌else◌,
}
use arq_backup_tui.Common.Slices.{slice}
use arq_backup_tui.Common.Result.{Result, ok, err}

abbrev pub fixed_chunk_size_arq_v8 : ℕ
fixed_chunk_size_arq_v8 = 40_000_000

pub data FixedError : Type 0 where
  chunk_size_below_one : FixedError

unfoldable pub fixed_chunker : ℕ → Result FixedError ℕ
fixed_chunker chunk_size = if ltb chunk_size 1 then err chunk_size_below_one else ok chunk_size

unfoldable pub fixed_end : ℕ → ℕ → ℕ → ℕ
fixed_end chunk_size n offset = if ltb n (offset + chunk_size) then n else offset + chunk_size

unfoldable pub fixed_loop : ℕ → List ℕ → ℕ → ℕ → Option (List (List ℕ))
fixed_loop chunk_size input zero offset = none
fixed_loop chunk_size input (suc fuel) offset =
    let stop = fixed_end chunk_size (length input) offset in
    let rest = fixed_loop chunk_size input fuel stop in
    if ltb offset (length input)
    then cons_some (slice input offset (stop - offset)) rest
    else some []

unfoldable pub fixed_chunk : ℕ → List ℕ → Option (List (List ℕ))
fixed_chunk chunk_size input = fixed_loop chunk_size input (length input + 1) 0
