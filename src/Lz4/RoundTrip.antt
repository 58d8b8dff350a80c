-- ===== src/Lz4/RoundTrip.antt =====
-- `lz4_unwrap` inverts `lz4_wrap`.
use arq_backup_tui.Common.{
  ℕ, zero, suc, ◌+◌, ◌-◌, ◌*◌, ◌/◌, ◌%◌, ◌^◌, ◌<◌, ◌≡◌, refl, sym, ap, ◌∙◌, none, some, List, [],
  ◌∷◌, ◌++◌, append_assoc, arith, length, length-append, replicate, false, ltb, ltb→lt, ◌==◌,
  Bool-cases, inl, inr,
}
use arq_backup_tui.Common.Slices.{take_all, drop_all, take-append_length, drop-append_length}
use arq_backup_tui.Common.Result.{ok}
use arq_backup_tui.Wire.Bytes.{big_endian, length-big_endian, from_big_endian-big_endian}
use arq_backup_tui.Lz4.Compress.{length_bytes, length_bytes_lem, lz4_block_compress, lz4_wrap}
use arq_backup_tui.Lz4.Decompress.{
  extend_length, read_length, read_match, read_sequence, decompress_loop, lz4_block_decompress,
  lz4_unwrap, finished,
}

extend_length-replicate :
    (k acc r : ℕ) (rest : List ℕ)
    → r < 255
    → extend_length acc (replicate k 255 ++ r ∷ rest) ≡ (acc + k * 255 + r, rest)
unfolding extend_length
extend_length-replicate zero acc r rest h = ground arith
extend_length-replicate (suc k) acc r rest h =
    ground (arith, extend_length-replicate k (acc + 255) r rest h)

-- The extension that the encoder writes is the one that the decoder reads.
extend_length-length_bytes :
    (acc rem : ℕ) (rest : List ℕ) → extend_length acc (length_bytes rem ++ rest) ≡ (acc + rem, rest)
extend_length-length_bytes acc rem rest =
    rw (length_bytes_lem rem, append_assoc)
      (extend_length-replicate (rem / 255) acc (rem % 255) rest (omega arith)
        ∙ ap (λ (n : ℕ). (n, rest)) (omega arith))

read_length-short : (n : ℕ) (bs : List ℕ) → n < 15 → read_length n bs ≡ (n, bs)
unfolding read_length
read_length-short n bs h = ground arith

read_length-long :
    (rem : ℕ) (rest : List ℕ) → read_length 15 (length_bytes rem ++ rest) ≡ (15 + rem, rest)
unfolding read_length
read_length-long rem rest = extend_length-length_bytes 15 rem rest

-- A token whose literals are the rest of the block ends it.
last_literals :
    (token n : ℕ) (block rest out : List ℕ)
    → read_length (token / 16 % 16) block ≡ (n, rest)
    → n ≡ length rest
    → read_sequence token block out ≡ ok (finished (out ++ rest))
unfolding read_sequence read_match
last_literals token n block rest out e h =
    rw (e, h, take_all (length rest) rest (omega arith), drop_all (length rest) rest (omega arith))
      (ground arith)

loop_last :
    (fuel token : ℕ) (block out out' : List ℕ)
    → read_sequence token block out ≡ ok (finished out')
    → decompress_loop (suc fuel) (token ∷ block) out ≡ ok out'
unfolding decompress_loop
loop_last fuel token block out out' e = rw (e, decompress_loop)

nonempty : (x : ℕ) (xs : List ℕ) → length (x ∷ xs) == 0 ≡ false
nonempty x xs = ground arith

small_token : (n : ℕ) → n < 15 → n * 16 / 16 % 16 ≡ n
small_token n h = omega arith

decompress_loop-compress :
    (input : List ℕ)
    → decompress_loop (length (lz4_block_compress input)) (lz4_block_compress input) [] ≡ ok input
unfolding lz4_block_compress
decompress_loop-compress [] =
    loop_last 0 0 [] [] [] (last_literals 0 0 [] [] [] (read_length-short 0 [] (omega arith)) refl)
decompress_loop-compress (x ∷ xs) =
    let input : List ℕ = x ∷ xs in
    let n : ℕ = length input in
    elim (Bool-cases (ltb n 15)) [
      | inl short ↦
          rw (nonempty x xs, short)
            (loop_last n (n * 16) input [] input (
              last_literals (n * 16) n input input []
                (rw (small_token n (ltb→lt n 15 short))
                  (read_length-short n input (ltb→lt n 15 short)))
                refl))
      | inr long ↦
          rw (nonempty x xs, long)
            (loop_last _ 0xf0 (length_bytes (n - 15) ++ input) [] input (
              last_literals 0xf0 (15 + (n - 15)) (length_bytes (n - 15) ++ input) input []
                (read_length-long (n - 15) input) (ground arith)))
    ]

-- Decoding an encoded input gives the input, with no expected size or with the right one.
pub decompress-compress :
    (input : List ℕ)
    → (lz4_block_decompress (lz4_block_compress input) none ≡ ok input)
      × (lz4_block_decompress (lz4_block_compress input) (some (length input)) ≡ ok input)
unfolding lz4_block_decompress
decompress-compress input =
    (rw (decompress_loop-compress input), rw (decompress_loop-compress input) (ground arith))

wrapped_parts :
    (input : List ℕ)
    → length input < 2 ^ 32
    → lz4_unwrap (big_endian 4 (length input) ++ lz4_block_compress input) ≡ ok input
unfolding lz4_unwrap
wrapped_parts input h =
    let head = big_endian 4 (length input) in
    let block = lz4_block_compress input in
    let four : length head ≡ 4 = length-big_endian 4 (length input) in
    let enough : ltb (length (head ++ block)) 4 ≡ false =
      ground (arith, four, length-append head block) in
    rw
      (
        enough,
        drop-append_length head block 4 (sym four),
        take-append_length head block 4 (sym four),
        from_big_endian-big_endian 4 (length input) h,
      )
      (decompress-compress input).1

-- What `lz4_wrap` accepts, `lz4_unwrap` gives back.
pub lz4_unwrap-lz4_wrap :
    (input wrapped : List ℕ) → lz4_wrap input ≡ ok wrapped → lz4_unwrap wrapped ≡ ok input
unfolding lz4_wrap
lz4_unwrap-lz4_wrap input wrapped e = elim (Bool-cases (ltb (length input) (2 ^ 32))) [
  | inl fits ↦
      let same : big_endian 4 (length input) ++ lz4_block_compress input ≡ wrapped =
        cc (rw fits at e) in
      rw (← same) (wrapped_parts input (ltb→lt _ _ fits))
  | inr large ↦ cc (rw large at e)
]
