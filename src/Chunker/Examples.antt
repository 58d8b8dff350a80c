-- ===== src/Chunker/Examples.antt =====
-- The chunkers on concrete inputs.
use arq_backup_tui.Common.{
  ℕ, zero, suc, ◌*◌, ◌%◌, ◌^◌, ◌≡◌, refl, some, List, [], ◌∷◌, arith, length, All,
}
use arq_backup_tui.Common.Result.{ok, err}
use arq_backup_tui.Chunker.Returns.{IsByte, IsTable}
use arq_backup_tui.Chunker.Hash.{
  ChunkerConfig, Buzhash, used_table, index_error, at, initial_hash, hash_from,
}
use arq_backup_tui.Chunker.Buzhash.{check_config, buzhash, chunk, chunk_loop, chunk_end}
use arq_backup_tui.Chunker.Fixed.{fixed_chunker, fixed_chunk}
use arq_backup_tui.Chunker.Splits.{Splits}
use arq_backup_tui.Chunker.Bounds.{chunk-Splits}
use arq_backup_tui.Chunker.FixedBounds.{fixed_chunk-Splits}

abbrev small_config : ChunkerConfig
small_config = record {
  window_size = 2;
  boundary_bits = 2;
  min_chunk_size = 3;
  max_chunk_size = 5;
  table = [];
}

abbrev sample : List ℕ
sample = 0 ∷ 1 ∷ 2 ∷ 3 ∷ 3 ∷ 2 ∷ 1 ∷ 0 ∷ 1 ∷ 1 ∷ 2 ∷ 3 ∷ []

abbrev words : ℕ → List ℕ
words zero = []
words (suc n) = n * 0x9e37_79b9 % 2 ^ 32 ∷ words n

abbrev chunker : Buzhash
chunker = record { config = small_config; table = words 256 }

constructed : buzhash (words 256) small_config ≡ ok chunker
unfolding buzhash check_config used_table
constructed = refl

length-words : (n : ℕ) → length (words n) ≡ n
length-words zero = refl
length-words (suc n) = omega (arith, length-words n)

chunker-IsTable : IsTable (words 256)
chunker-IsTable = omega (arith, length-words 256)

sample-IsByte : All IsByte sample
sample-IsByte = omega arith

chunk-Splits_example :
    (chunks : List (List ℕ)) × (chunk chunker sample ≡ ok chunks)
    × Splits 3 5 sample 0 (some chunks)
chunk-Splits_example =
    chunk-Splits (words 256) small_config chunker sample constructed chunker-IsTable sample-IsByte

-- On a table that is too short the chunker raises.
short_table : chunk (record { config = small_config; table = 1 ∷ 2 ∷ [] }) sample ≡ err index_error
unfolding chunk chunk_loop chunk_end initial_hash hash_from at
short_table = refl

fixed_chunk-Splits_example : Splits 5 5 sample 0 (fixed_chunk 5 sample)
unfolding fixed_chunker
fixed_chunk-Splits_example = fixed_chunk-Splits 5 sample refl
