-- ===== src/Wire/Bytes.antt =====
-- Big-endian integers: `struct.pack` and `struct.unpack` with ">I", ">Q", ">i" and ">q", as
-- arq_writer/serialize.py and arq_reader/parse.py use them. A byte is a number below 256.
use native.Mathlib.Nat.{pow-suc}
use arq_backup_tui.Common.{
  ℕ, zero, suc, ◌+◌, ◌-◌, ◌*◌, ◌/◌, ◌%◌, ◌^◌, ◌<◌, ◌≡◌, refl, List, [], ◌∷◌, ◌++◌, arith, length,
  length-append, ltb, if◌then◌else◌,
}
use arq_backup_tui.Common.Int.{ℤ, pos, negsuc}

-- The `w` bytes of `n`, most significant first.
unfoldable pub big_endian : ℕ → ℕ → List ℕ
big_endian zero n = []
big_endian (suc w) n = big_endian w (n / 256) ++ (n % 256) ∷ []

-- The number that a byte string stands for, after the more significant part `acc`.
unfoldable pub from_big_endian : ℕ → List ℕ → ℕ
from_big_endian acc [] = acc
from_big_endian acc (b ∷ bs) = from_big_endian (acc * 256 + b) bs

from_big_endian-append :
    (acc : ℕ) (xs : List ℕ) (b : ℕ)
    → from_big_endian acc (xs ++ b ∷ []) ≡ from_big_endian acc xs * 256 + b
unfolding from_big_endian
from_big_endian-append acc [] b = refl
from_big_endian-append acc (x ∷ xs) b = from_big_endian-append (acc * 256 + x) xs b

pub from_big_endian-big_endian : (w n : ℕ) → n < 256 ^ w → from_big_endian 0 (big_endian w n) ≡ n
unfolding big_endian
from_big_endian-big_endian zero n h = unfold from_big_endian in omega arith
from_big_endian-big_endian (suc w) n h = omega (
  arith,
  from_big_endian-append 0 (big_endian w (n / 256)) (n % 256),
  from_big_endian-big_endian w (n / 256) (omega (arith, pow-suc 256 w)),
)

pub length-big_endian : (w n : ℕ) → length (big_endian w n) ≡ w
unfolding big_endian
length-big_endian zero n = refl
length-big_endian (suc w) n =
    omega (
      arith,
      length-append (big_endian w (n / 256)) ((n % 256) ∷ []),
      length-big_endian w (n / 256),
    )

-- An integer as a two's complement word, modulo `m`; and back.
unfoldable pub to_word : ℕ → ℤ → ℕ
to_word m (pos n) = n
to_word m (negsuc n) = m - 1 - n

unfoldable pub from_word : ℕ → ℕ → ℤ
from_word m n = if ltb n (m / 2) then pos n else negsuc (m - 1 - n)

-- The integers that a signed word of `m` values holds.
abbrev pub InSigned : ℕ → ℤ → Type 0
InSigned m (pos n) = n < m / 2
InSigned m (negsuc n) = n < m / 2

pub from_word-to_word : (m : ℕ) (z : ℤ) → InSigned m z → from_word m (to_word m z) ≡ z
unfolding from_word to_word
from_word-to_word m (pos n) h = ground arith
from_word-to_word m (negsuc n) h = ground arith

pub to_word-lt : (m : ℕ) (z : ℤ) → InSigned m z → to_word m z < m
unfolding to_word
to_word-lt m (pos n) h = omega arith
to_word-lt m (negsuc n) h = omega arith
