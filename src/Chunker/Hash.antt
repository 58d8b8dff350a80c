-- ===== src/Chunker/Hash.antt =====
-- The hash of arq_writer/chunker.py: `_rol`, `Buzhash.initial_hash`, `Buzhash.slide`. The default
-- table, which comes from Python's `random`, is an argument.
use arq_backup_tui.Common.Result.{Result, ok, err, ◌>>=◌}
use Prim.Native.Nat.{bit_and, bit_or, bit_xor}
use arq_backup_tui.Common.{
  ℕ, ◌+◌, ◌-◌, ◌*◌, ◌/◌, ◌%◌, ◌^◌, Bool, List, [], ◌∷◌, length, get_elem?, none, some, ◌==◌,
  if◌then◌else◌,
}

abbrev pub word_bits : ℕ
word_bits = 32

abbrev pub word_mask : ℕ
word_mask = 0xffff_ffff

unfoldable pub rol : ℕ → ℕ → ℕ
rol x n =
    let k = n % word_bits in
    if k == 0
    then bit_and x word_mask
    else bit_and (bit_or (x * 2 ^ k) (x / 2 ^ (word_bits - k))) word_mask

-- `ChunkerConfig`; its table is empty where none is given.
pub record ChunkerConfig : Type 0 where
  pub window_size : ℕ
  pub boundary_bits : ℕ
  pub min_chunk_size : ℕ
  pub max_chunk_size : ℕ
  pub table : List ℕ

unfoldable pub boundary_mask : ChunkerConfig → ℕ
boundary_mask cfg = 2 ^ cfg.boundary_bits - 1

-- `Buzhash`: its configuration, and the table that it uses.
pub record Buzhash : Type 0 where
  pub config : ChunkerConfig
  pub table : List ℕ

-- `self.config.table or _DEFAULT_TABLE`
unfoldable pub used_table : List ℕ → List ℕ → List ℕ
used_table default_table [] = default_table
used_table default_table (word ∷ words) = word ∷ words

-- The `ValueError` of `initial_hash`, the `IndexError` of a table or of the input, and a loop that is out
-- of fuel, which is no answer of the program.
pub data ChunkError : Type 0 where
  wrong_window_size index_error stuck : ChunkError

-- `xs[i]`
unfoldable pub at : List ℕ → ℕ → Result ChunkError ℕ
at xs i = elim (get_elem? xs i) [ none ↦ err index_error | some x ↦ ok x ]

-- `h ^= _rol(self._table[b], n - 1 - i)` for the bytes from index `i` on.
unfoldable pub hash_from : Buzhash → ℕ → ℕ → List ℕ → Result ChunkError ℕ
hash_from bz h i [] = ok h
hash_from bz h i (b ∷ window) = at bz.table b >>= λ word.
    hash_from bz (bit_xor h (rol word (bz.config.window_size - 1 - i))) (i + 1) window

unfoldable pub initial_hash : Buzhash → List ℕ → Result ChunkError ℕ
initial_hash bz window =
    if length window == bz.config.window_size
    then (hash_from bz 0 0 window >>= λ h. ok (bit_and h word_mask))
    else err wrong_window_size

-- `_table_rol_n[byte_out]` is computed where it is used.
unfoldable pub slide : Buzhash → ℕ → ℕ → ℕ → Result ChunkError ℕ
slide bz current_hash byte_out byte_in = at bz.table byte_out >>= λ word_out.
    at bz.table byte_in >>= λ word_in. ok (
      bit_and (bit_xor (bit_xor (rol current_hash 1) (rol word_out bz.config.window_size)) word_in)
        word_mask)

unfoldable pub is_boundary : ChunkerConfig → ℕ → Bool
is_boundary cfg h = bit_and h (boundary_mask cfg) == 0
