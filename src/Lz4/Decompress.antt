-- ===== src/Lz4/Decompress.antt =====
-- `lz4_block_decompress` and `lz4_unwrap`. The index `i` into the block is the list of the bytes that
-- are left.
use arq_backup_tui.Common.{
  ℕ, zero, suc, ◌+◌, ◌-◌, ◌*◌, ◌/◌, ◌%◌, Option, none, some, List, [], ◌∷◌, ◌++◌, length, take,
  drop, get_or, ltb, ◌==◌, if◌then◌else◌,
}
use arq_backup_tui.Common.Result.{Result, ok, err, ◌>>=◌}
use arq_backup_tui.Wire.Bytes.{from_big_endian}

-- The `ValueError`s. `stuck` is none of them: the loop ran out of fuel (it never does).
pub data Lz4Error : Type 0 where
  literals_past_end truncated_offset zero_offset match_before_start length_mismatch short_prefix
        stuck :
      Lz4Error

-- `while i < end: b = block[i]; i += 1; acc += b; if b != 0xFF: break`
unfoldable pub extend_length : ℕ → List ℕ → ℕ × List ℕ
extend_length acc [] = (acc, [])
extend_length acc (b ∷ bs) =
    let more = extend_length (acc + b) bs in if b == 0xff then more else (acc + b, bs)

-- A length of four bits, with its extension if it is 15.
unfoldable pub read_length : ℕ → List ℕ → ℕ × List ℕ
read_length nibble bs = if nibble == 15 then extend_length nibble bs else (nibble, bs)

-- `for k in range(count): out.append(out[start + k])`
unfoldable pub copy_match : ℕ → ℕ → List ℕ → List ℕ
copy_match zero from out = out
copy_match (suc count) from out = copy_match count (suc from) (out ++ get_or out from 0 ∷ [])

-- What a sequence does to the block and the output: it ends the block, or goes on.
pub data Progress : Type 0 where
  finished : List ℕ → Progress
  going : List ℕ → List ℕ → Progress

unfoldable pub read_match : ℕ → List ℕ → List ℕ → Result Lz4Error Progress
read_match token [] out = ok (finished out)
read_match token (b0 ∷ []) out = err truncated_offset
read_match token (b0 ∷ b1 ∷ bs) out =
    let offset = b0 + b1 * 256 in
    let (extra, rest) = read_length (token % 16) bs in
    if offset == 0
    then err zero_offset
    else if ltb (length out) offset
    then err match_before_start
    else ok (going rest (copy_match (extra + 4) (length out - offset) out))

-- One round of the outer loop, behind its token.
unfoldable pub read_sequence : ℕ → List ℕ → List ℕ → Result Lz4Error Progress
read_sequence token block out =
    let (count, rest) = read_length (token / 16 % 16) block in
    if ltb (length rest) count
    then err literals_past_end
    else read_match token (drop count rest) (out ++ take count rest)

unfoldable pub decompress_loop : ℕ → List ℕ → List ℕ → Result Lz4Error (List ℕ)
decompress_loop fuel [] out = ok out
decompress_loop zero (token ∷ block) out = err stuck
decompress_loop (suc fuel) (token ∷ block) out = elim (read_sequence token block out) [
  | err e ↦ err e
  | ok (finished out') ↦ ok out'
  | ok (going block' out') ↦ decompress_loop fuel block' out'
]

unfoldable pub check_size : Option ℕ → List ℕ → Result Lz4Error (List ℕ)
check_size none out = ok out
check_size (some expected) out = if length out == expected then ok out else err length_mismatch

-- `none` is an `expected_size` below 0. A round takes a byte at least, so the fuel is enough.
unfoldable pub lz4_block_decompress : List ℕ → Option ℕ → Result Lz4Error (List ℕ)
unfolding check_size
lz4_block_decompress block expected = do
  out ← decompress_loop (length block) block []
  check_size expected out

unfoldable pub lz4_unwrap : List ℕ → Result Lz4Error (List ℕ)
lz4_unwrap wrapped =
    if ltb (length wrapped) 4
    then err short_prefix
    else lz4_block_decompress (drop 4 wrapped) (some (from_big_endian 0 (take 4 wrapped)))
