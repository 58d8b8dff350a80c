-- ===== src/Lz4/Examples.antt =====
-- The theorems on arq_writer/lz4_block.py at concrete inputs.
use arq_backup_tui.Common.{
  ℕ, ◌+◌, ◌<◌, ◌≡◌, refl, List, [], ◌∷◌, some, none, arith, length, replicate, get_or,
}
use arq_backup_tui.Common.Result.{ok, err}
use arq_backup_tui.Wire.Bytes.{big_endian}
use arq_backup_tui.Lz4.Compress.{
  lz4_wrap, lz4_block_compress, length_bytes, length-lz4_block_compress,
}
use arq_backup_tui.Lz4.Decompress.{
  lz4_block_decompress, lz4_unwrap, decompress_loop, read_sequence, read_match, read_length,
  extend_length, copy_match, check_size, zero_offset, stuck,
}
use arq_backup_tui.Lz4.RoundTrip.{lz4_unwrap-lz4_wrap}
use arq_backup_tui.Lz4.Copy.{copy_match_lem}
use arq_backup_tui.Lz4.Total.{lz4_block_decompress-ne-stuck, length-lz4_block_decompress}
use mathlib.Core.Logic.{◌≢◌}

abbrev text : List ℕ
text = replicate 300 7

wrapped : lz4_wrap text ≡ ok (0 ∷ 0 ∷ 1 ∷ 44 ∷ 0xf0 ∷ 255 ∷ 30 ∷ text)
unfolding lz4_wrap lz4_block_compress length_bytes big_endian
wrapped = refl

lz4_unwrap-lz4_wrap_example : lz4_unwrap (0 ∷ 0 ∷ 1 ∷ 44 ∷ 0xf0 ∷ 255 ∷ 30 ∷ text) ≡ ok text
lz4_unwrap-lz4_wrap_example = lz4_unwrap-lz4_wrap text _ wrapped

-- One literal and a match that overlaps what it writes.
run_of_nines : lz4_block_decompress (0x12 ∷ 9 ∷ 1 ∷ 0 ∷ []) (some 7) ≡ ok (replicate 7 9)
unfolding lz4_block_decompress decompress_loop read_sequence read_match read_length copy_match
    check_size extend_length
run_of_nines = refl

length-lz4_block_decompress_example : length {A = ℕ} (replicate 7 9) ≡ 7
length-lz4_block_decompress_example =
    length-lz4_block_decompress (0x12 ∷ 9 ∷ 1 ∷ 0 ∷ []) 7 (replicate 7 9) run_of_nines

bad_offset : lz4_block_decompress (0x12 ∷ 9 ∷ 0 ∷ 0 ∷ []) none ≡ err zero_offset
unfolding lz4_block_decompress decompress_loop read_sequence read_match read_length copy_match
    check_size extend_length
bad_offset = refl

lz4_block_decompress-ne-stuck_example :
    lz4_block_decompress (0x12 ∷ 9 ∷ 0 ∷ 0 ∷ []) none ≢ err stuck
lz4_block_decompress-ne-stuck_example = lz4_block_decompress-ne-stuck (0x12 ∷ 9 ∷ 0 ∷ 0 ∷ []) none

copy_match_lem_example :
    (length (copy_match 6 0 (9 ∷ 8 ∷ [])) ≡ 2 + 6)
    × ((i : ℕ) → i < 2 → get_or (copy_match 6 0 (9 ∷ 8 ∷ [])) i 0 ≡ get_or (9 ∷ 8 ∷ []) i 0)
    × ((k : ℕ)
        → k < 6
        → get_or (copy_match 6 0 (9 ∷ 8 ∷ [])) (2 + k) 0
          ≡ get_or (copy_match 6 0 (9 ∷ 8 ∷ [])) (0 + k) 0)
copy_match_lem_example = copy_match_lem 6 2 (9 ∷ 8 ∷ []) 0 (omega arith) (omega arith)

length-lz4_block_compress_example : length (lz4_block_compress text) ≡ 303
length-lz4_block_compress_example = length-lz4_block_compress text
