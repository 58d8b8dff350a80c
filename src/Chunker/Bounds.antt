-- ===== src/Chunker/Bounds.antt =====
-- The chunks of arq_writer/chunker.py give back the input, and their sizes are in bounds.
use arq_backup_tui.Common.{
  ◌==◌, drop, length-take, length-drop, ℕ, zero, suc, ◌+◌, ◌-◌, ◌≤◌, ◌<◌, ◌≡◌, refl, min, Option,
  none, some, List, arith, length, All, [], ◌∷◌, ◌∙◌, sym, subst, ltb, ltb→lt, leb, ◌==◌,
  Bool-cases, inl, inr,
}
use arq_backup_tui.Common.Slices.{slice}
use arq_backup_tui.Common.Result.{Result, ok, bind_ok, bind_returned}
use arq_backup_tui.Chunker.Hash.{ChunkerConfig, Buzhash, ChunkError, initial_hash, is_boundary}
use arq_backup_tui.Chunker.Splits.{EndsWell, Splits, Splits-step, Splits-end, Splits-whole}
use arq_backup_tui.Chunker.Buzhash.{
  check_config, buzhash, scan, or_else, chunk_end, chunk_loop, chunk,
}
use arq_backup_tui.Chunker.Returns.{
  IsByte, IsTable, All-drop, All-take, initial_hash-Returns, scan-Scanned,
}

-- What `Buzhash.__init__` lets through.
pub record IsValid (cfg : ChunkerConfig) : Type 0 where
  pub window : 1 ≤ cfg.window_size
  pub min_size : cfg.window_size ≤ cfg.min_chunk_size
  pub max_size : cfg.min_chunk_size ≤ cfg.max_chunk_size

check_config-IsValid :
    (cfg cfg' : ChunkerConfig) → check_config cfg ≡ ok cfg' → (cfg' ≡ cfg) × IsValid cfg
unfolding check_config
check_config-IsValid cfg cfg' e = ground arith

or_else_bounds :
    (o : Option ℕ) (lo hi d : ℕ)
    → ((stop : ℕ) → o ≡ some stop → (lo < stop) × (stop ≤ hi))
    → lo ≤ d
    → d ≤ hi
    → (lo ≤ or_else o d) × (or_else o d ≤ hi)
unfolding or_else
or_else_bounds none lo hi d h p q = (p, q)
or_else_bounds (some i) lo hi d h p q = omega (arith, h i refl)

abbrev EndsAt : ChunkerConfig → List ℕ → ℕ → Result ChunkError ℕ → Type 0
EndsAt cfg input start r =
    (stop : ℕ) × (r ≡ ok stop)
    × EndsWell cfg.min_chunk_size cfg.max_chunk_size (length input) start stop

module _ (bz : Buzhash) (words : IsTable bz.table) (v : IsValid bz.config) (input : List ℕ)
    (bytes : All IsByte input) where
  abbrev cfg : ChunkerConfig
  cfg = bz.config

  chunk_end-EndsAt :
      (start : ℕ) → start < length input → EndsAt cfg input start (chunk_end bz input start)
  unfolding chunk_end
  chunk_end-EndsAt start l =
      let n = length input in
      let max_end = min (start + cfg.max_chunk_size) n in
      let min_end = min (start + cfg.min_chunk_size) n in
      let window_start = min_end - cfg.window_size in
      let window = slice input window_start (min_end - window_start) in
      elim (Bool-cases (ltb (max_end - start) cfg.min_chunk_size)) [
        | inl tail ↦ (max_end, rw tail refl, ground (arith, v.window, v.min_size, v.max_size))
        | inr long ↦
            let far : cfg.min_chunk_size ≤ max_end - start = ground arith in
            let size : length window ≡ cfg.window_size = omega (
              arith,
              length-take (min_end - window_start) (drop window_start input),
              length-drop window_start input,
              v.min_size,
              v.window,
            ) in
            let (h, hashed) = initial_hash-Returns bz words window size (
              All-take IsByte (min_end - window_start) (drop window_start input)
                (All-drop IsByte window_start input bytes)) in
            let (found, scanned, bounds) =
              scan-Scanned bz words input (max_end - min_end) h min_end bytes
                (omega (arith, v.max_size)) in
            elim (Bool-cases (is_boundary cfg h)) [
              | inl at_once ↦ (
                min_end,
                rw long (bind_ok (initial_hash bz window) _ h hashed ∙ rw at_once refl),
                (
                  omega (arith, v.window, v.min_size),
                  omega arith,
                  omega (arith, v.max_size),
                  inr (omega (arith, v.max_size)),
                ),
              )
              | inr later ↦
                  let (lo, hi) =
                    or_else_bounds found min_end max_end max_end
                      (λ stop e. omega (arith, bounds stop e, v.max_size))
                      (omega (arith, v.max_size)) (omega arith) in
                  (
                    or_else found max_end,
                    rw long (
                        bind_ok (initial_hash bz window) _ h hashed
                        ∙ rw later (
                            bind_ok (scan bz input (max_end - min_end) h min_end) _ found scanned)),
                    (
                      omega (arith, v.window, v.min_size),
                      omega arith,
                      omega arith,
                      inr (omega (arith, v.max_size)),
                    ),
                  )
            ]
      ]

  -- The chunks from an index on.
  abbrev pub ChunksFrom : ℕ → Result ChunkError (List (List ℕ)) → Type 0
  ChunksFrom start r =
      (chunks : List (List ℕ)) × (r ≡ ok chunks)
      × Splits cfg.min_chunk_size cfg.max_chunk_size input start (some chunks)

  chunk_loop-ChunksFrom :
      (fuel start : ℕ)
      → start ≤ length input
      → length input < fuel + start
      → ChunksFrom start (chunk_loop bz input fuel start)
  unfolding chunk_loop
  chunk_loop-ChunksFrom zero start l f = absurd (omega arith)
  chunk_loop-ChunksFrom (suc fuel) start l f = elim (Bool-cases (ltb start (length input))) [
    | inl more ↦
        let (stop, ended, ends) = chunk_end-EndsAt start (ltb→lt start (length input) more) in
        let (rest, looped, splits) =
          chunk_loop-ChunksFrom fuel stop ends.1 (omega (arith, ends.0)) in
        (
          slice input start (stop - start) ∷ rest,
          rw (more, chunk_loop)
              (bind_ok (chunk_end bz input start) _ stop ended
                ∙ bind_ok (chunk_loop bz input fuel stop) _ rest looped),
          Splits-step cfg.min_chunk_size cfg.max_chunk_size input start stop (some rest) ends
              splits,
        )
    | inr done ↦ (
      [],
      rw (done, chunk_loop) refl,
      Splits-end cfg.min_chunk_size cfg.max_chunk_size input start (ground arith),
    )
  ]

  chunk-ChunksFrom : ChunksFrom 0 (chunk bz input)
  unfolding chunk
  chunk-ChunksFrom = elim (Bool-cases (length input == 0)) [
    | inl empty ↦
        ([], rw empty refl, Splits-end cfg.min_chunk_size cfg.max_chunk_size input 0 (ground arith))
    | inr full ↦ elim (Bool-cases (leb (length input) cfg.min_chunk_size)) [
      | inl small ↦ (
        input ∷ [],
        rw (full, small) refl,
        Splits-whole cfg.min_chunk_size cfg.max_chunk_size input (ground arith)
            (ground (arith, v.max_size)),
      )
      | inr large ↦
          let (chunks, e, splits) =
            chunk_loop-ChunksFrom (length input + 1) 0 (omega arith) (omega arith) in
          (chunks, rw (full, large) e, splits)
    ]
  ]

-- For a chunker that the constructor returns with a table of 256 words, and an input of bytes, `chunk`
-- returns; its chunks put together are the input, no chunk is empty or longer than the largest size, and
-- every chunk but the last is at least as long as the smallest size.
pub chunk-Splits :
    (default_table : List ℕ) (cfg : ChunkerConfig) (bz : Buzhash) (input : List ℕ)
    → buzhash default_table cfg ≡ ok bz
    → IsTable bz.table
    → All IsByte input
    → (chunks : List (List ℕ)) × (chunk bz input ≡ ok chunks)
      × Splits cfg.min_chunk_size cfg.max_chunk_size input 0 (some chunks)
unfolding buzhash
chunk-Splits default_table cfg bz input e words bytes =
    let (config, checked, made) = bind_returned (check_config cfg) _ bz e in
    let (same, v) = check_config-IsValid cfg config checked in
    let its_config : bz.config ≡ cfg = cc in
    let result = chunk-ChunksFrom bz words (subst IsValid (sym its_config) v) input bytes in
    subst
      (λ (c : ChunkerConfig).
        (chunks : List (List ℕ)) × (chunk bz input ≡ ok chunks)
        × Splits c.min_chunk_size c.max_chunk_size input 0 (some chunks))
      its_config result
