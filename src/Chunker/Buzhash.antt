-- ===== src/Chunker/Buzhash.antt =====
-- `Buzhash.chunk`. A chunk is found by its end; the loops run over indices into the whole input.
use arq_backup_tui.Common.{
  ℕ, zero, suc, ◌+◌, ◌-◌, min, Option, none, some, List, [], ◌∷◌, length, true, false, ltb, leb,
  ◌==◌, if◌then◌else◌,
}
use arq_backup_tui.Common.Slices.{slice}
use arq_backup_tui.Common.Result.{Result, ok, err, ◌>>=◌}
use arq_backup_tui.Chunker.Hash.{
  ChunkerConfig, Buzhash, used_table, ChunkError, stuck, at, initial_hash, slide, is_boundary,
}

-- The `ValueError`s of `Buzhash.__init__`.
pub data ConfigError : Type 0 where
  window_too_small min_below_window max_below_min : ConfigError

unfoldable pub check_config : ChunkerConfig → Result ConfigError ChunkerConfig
check_config cfg =
    if ltb cfg.window_size 1
    then err window_too_small
    else if ltb cfg.min_chunk_size cfg.window_size
    then err min_below_window
    else if ltb cfg.max_chunk_size cfg.min_chunk_size
    then err max_below_min
    else ok cfg

-- `Buzhash.__init__`
unfoldable pub buzhash : List ℕ → ChunkerConfig → Result ConfigError Buzhash
buzhash default_table cfg = check_config cfg >>= λ config.
    ok record { config = config; table = used_table default_table config.table }

-- `while i < max_end`, with `count` for `max_end - i`: the end of the chunk, if a boundary is found.
unfoldable pub scan : Buzhash → List ℕ → ℕ → ℕ → ℕ → Result ChunkError (Option ℕ)
scan bz input zero h i = ok none
scan bz input (suc count) h i = at input (i - bz.config.window_size) >>= λ byte_out.
    at input i >>= λ byte_in. slide bz h byte_out byte_in >>= λ h'.
    elim (is_boundary bz.config h') [
      | true ↦ ok (some (i + 1))
      | false ↦ scan bz input count h' (i + 1)
    ]

unfoldable pub or_else : Option ℕ → ℕ → ℕ
or_else none d = d
or_else (some i) d = i

-- The end of the chunk that starts at `chunk_start`: one round of the outer loop.
unfoldable pub chunk_end : Buzhash → List ℕ → ℕ → Result ChunkError ℕ
chunk_end bz input chunk_start =
    let n = length input in
    let max_end = min (chunk_start + bz.config.max_chunk_size) n in
    let min_end = min (chunk_start + bz.config.min_chunk_size) n in
    if ltb (max_end - chunk_start) bz.config.min_chunk_size
    then ok max_end
    else let window_start = min_end - bz.config.window_size in
      initial_hash bz (slice input window_start (min_end - window_start)) >>= λ h.
      if is_boundary bz.config h
      then ok min_end
      else (scan bz input (max_end - min_end) h min_end >>= λ found. ok (or_else found max_end))

unfoldable pub chunk_loop : Buzhash → List ℕ → ℕ → ℕ → Result ChunkError (List (List ℕ))
chunk_loop bz input zero chunk_start = err stuck
chunk_loop bz input (suc fuel) chunk_start = elim (ltb chunk_start (length input)) [
  | false ↦ ok []
  | true ↦ chunk_end bz input chunk_start >>= λ stop. chunk_loop bz input fuel stop >>= λ rest.
      ok (slice input chunk_start (stop - chunk_start) ∷ rest)
]

unfoldable pub chunk : Buzhash → List ℕ → Result ChunkError (List (List ℕ))
chunk bz input =
    let n = length input in
    if n == 0
    then ok []
    else if leb n bz.config.min_chunk_size
    then ok (input ∷ [])
    else chunk_loop bz input (n + 1) 0
