-- ===== src/Lz4/Compress.antt =====
-- `lz4_block_compress` and `lz4_wrap`.
use mathlib.Core.Logic.{dite, dif_pos, dif_neg}
use mathlib.Core.WellFounded.{Acc}
use native.Mathlib.Bridge.{le_prop}
use native.Mathlib.Decide.{dec_lt}
use arq_backup_tui.Common.{
  ℕ, suc, ◌+◌, ◌-◌, ◌*◌, ◌/◌, ◌%◌, ◌^◌, ◌<◌, ◌≡◌, refl, ap, List, [], ◌∷◌, ◌++◌, arith, length,
  length-append, length-replicate, replicate, ltb, ◌==◌, if◌then◌else◌,
}
use arq_backup_tui.Common.Order.{lt_wf}
use arq_backup_tui.Common.Result.{Result, ok, err}
use arq_backup_tui.Wire.Bytes.{big_endian}

pub shrinks : (rem : ℕ) → 254 < rem → rem - 255 < rem
shrinks rem h = omega arith

-- `while rem >= 255: append(255); rem -= 255`, then `append(rem)`.
length_bytes_acc : (rem : ℕ) → Acc ◌<◌ rem → List ℕ
length_bytes_acc rem (Acc.intro _ smaller) =
    dite (dec_lt 254 rem)
      (λ more. 255 ∷ length_bytes_acc (rem - 255) (smaller (rem - 255) (shrinks rem more)))
      (λ _. rem ∷ [])

unfoldable pub length_bytes : ℕ → List ℕ
unfolding length_bytes_acc lt_wf dec_lt
length_bytes rem = length_bytes_acc rem (lt_wf.apply rem)

unfoldable pub lz4_block_compress : List ℕ → List ℕ
lz4_block_compress input =
    let n = length input in
    if n == 0
    then 0 ∷ []
    else if ltb n 15
    then (n * 16) ∷ input
    else 0xf0 ∷ (length_bytes (n - 15) ++ input)

pub data WrapError : Type 0 where
  length_out_of_range : WrapError

-- `struct.pack(">I", len(data))` raises where the length has more than 32 bits.
unfoldable pub lz4_wrap : List ℕ → Result WrapError (List ℕ)
lz4_wrap input =
    if ltb (length input) (2 ^ 32)
    then ok (big_endian 4 (length input) ++ lz4_block_compress input)
    else err length_out_of_range

length_bytes_acc_lem :
    (rem : ℕ) (w : Acc ◌<◌ rem)
    → length_bytes_acc rem w ≡ replicate (rem / 255) 255 ++ (rem % 255) ∷ []
unfolding length_bytes_acc
length_bytes_acc_lem rem (Acc.intro _ smaller) = elim (dec_lt 254 rem) [
  | yes more ↦
      let q : rem / 255 ≡ suc ((rem - 255) / 255) = omega arith in
      let r : rem % 255 ≡ (rem - 255) % 255 = omega arith in
      rw (dif_pos _ le_prop more, q, r)
        (ap (λ (l : List ℕ). 255 ∷ l)
          (length_bytes_acc_lem (rem - 255) (smaller (rem - 255) (shrinks rem more))))
  | no few ↦
      let q : rem / 255 ≡ 0 = omega arith in
      let r : rem % 255 ≡ rem = omega arith in rw (dif_neg _ few, q, r)
]

-- The extension bytes in closed form.
pub length_bytes_lem : (rem : ℕ) → length_bytes rem ≡ replicate (rem / 255) 255 ++ (rem % 255) ∷ []
unfolding length_bytes
length_bytes_lem rem = length_bytes_acc_lem rem (lt_wf.apply rem)

pub length-length_bytes : (rem : ℕ) → length (length_bytes rem) ≡ rem / 255 + 1
length-length_bytes rem = rw (length_bytes_lem rem, length-append, length-replicate) refl

-- The output has the length of the input, the token, and for 15 bytes or more the extension.
pub length-lz4_block_compress :
    (input : List ℕ)
    → length (lz4_block_compress input)
      ≡ length input + 1 + (if ltb (length input) 15 then 0 else (length input - 15) / 255 + 1)
unfolding lz4_block_compress
length-lz4_block_compress input = ground (
  arith,
  length-append (length_bytes (length input - 15)) input,
  length-length_bytes (length input - 15),
)
