-- ===== src/Chunker/Returns.antt =====
-- On bytes, with a table of 256 words, no lookup of the chunker raises.
use Prim.Native.Nat.{bit_xor, bit_and}
use arq_backup_tui.Common.{
  true, false, take, ◌==◌, ==_iff, drop, ℕ, zero, suc, ◌+◌, ◌-◌, ◌≤◌, ◌<◌, ◌≡◌, refl, Option, none,
  some, List, arith, length, All, [], ◌∷◌, ◌∙◌, subst, ◌==◌, Bool-cases, inl, inr,
}
use arq_backup_tui.Common.Result.{Result, ok, bind_ok}
use arq_backup_tui.Chunker.Hash.{
  word_mask, rol, ChunkerConfig, Buzhash, ChunkError, at, hash_from, initial_hash, slide,
  is_boundary,
}
use arq_backup_tui.Chunker.Buzhash.{scan}

abbrev pub IsByte : ℕ → Type 0
IsByte b = b < 256

-- A table with a word for each byte.
abbrev pub IsTable : List ℕ → Type 0
IsTable table = 256 ≤ length table

-- A call that returns.
abbrev pub Returns {ℓ} : {A : Type ℓ} → Result ChunkError A → Type ℓ
Returns {A} r = (a : A) × (r ≡ ok a)

pub at-Returns : (xs : List ℕ) (i : ℕ) → i < length xs → Returns (at xs i)
unfolding at
at-Returns [] i h = absurd (omega arith)
at-Returns (x ∷ xs) zero h = (x, refl)
at-Returns (x ∷ xs) (suc i) h = at-Returns xs i (omega arith)

at-All : (P : ℕ → Type 0) (xs : List ℕ) (i x : ℕ) → All P xs → at xs i ≡ ok x → P x
unfolding at
at-All P [] i x h e = cc
at-All P (y ∷ ys) zero x (h, hs) e = let same : y ≡ x = cc in subst P same h
at-All P (y ∷ ys) (suc i) x (h, hs) e = at-All P ys i x hs e

pub All-drop : (P : ℕ → Type 0) (n : ℕ) (xs : List ℕ) → All P xs → All P (drop n xs)
All-drop P zero xs h = h
All-drop P (suc n) [] h = tt
All-drop P (suc n) (x ∷ xs) (h, hs) = All-drop P n xs hs

pub All-take : (P : ℕ → Type 0) (n : ℕ) (xs : List ℕ) → All P xs → All P (take n xs)
All-take P zero xs h = tt
All-take P (suc n) [] h = tt
All-take P (suc n) (x ∷ xs) (h, hs) = (h, All-take P n xs hs)

module _ (bz : Buzhash) (words : IsTable bz.table) where
  abbrev cfg : ChunkerConfig
  cfg = bz.config

  hash_from-Returns :
      (window : List ℕ) (h i : ℕ) → All IsByte window → Returns (hash_from bz h i window)
  unfolding hash_from
  hash_from-Returns [] h i all = (h, refl)
  hash_from-Returns (b ∷ window) h i (byte, bytes) =
      let (word, found) = at-Returns bz.table b (omega arith) in
      let (out, rest) =
        hash_from-Returns window (bit_xor h (rol word (cfg.window_size - 1 - i))) (i + 1) bytes in
      (out, bind_ok (at bz.table b) _ word found ∙ rest)

  pub initial_hash-Returns :
      (window : List ℕ)
      → length window ≡ cfg.window_size
      → All IsByte window
      → Returns (initial_hash bz window)
  unfolding initial_hash
  initial_hash-Returns window l bytes =
      let (h, e) = hash_from-Returns window 0 0 bytes in
      let size : (length window == cfg.window_size) ≡ true =
        (==_iff (length window) cfg.window_size).1 l in
      (bit_and h word_mask, rw size (bind_ok (hash_from bz 0 0 window) _ h e))

  slide-Returns :
      (h byte_out byte_in : ℕ)
      → IsByte byte_out
      → IsByte byte_in
      → Returns (slide bz h byte_out byte_in)
  unfolding slide
  slide-Returns h byte_out byte_in o i =
      let (word_out, out_e) = at-Returns bz.table byte_out (omega arith) in
      let (word_in, in_e) = at-Returns bz.table byte_in (omega arith) in
      (
        _,
        bind_ok (at bz.table byte_out) _ word_out out_e
            ∙ bind_ok (at bz.table byte_in) _ word_in in_e,
      )

  abbrev pub Scanned : ℕ → ℕ → Result ChunkError (Option ℕ) → Type 0
  Scanned i count r =
      (found : Option ℕ) × (r ≡ ok found)
      × ((stop : ℕ) → found ≡ some stop → (i < stop) × (stop ≤ i + count))

  pub scan-Scanned :
      (input : List ℕ) (count h i : ℕ)
      → All IsByte input
      → i + count ≤ length input
      → Scanned i count (scan bz input count h i)
  unfolding scan
  scan-Scanned input zero h i bytes l = (none, refl, λ stop e. cc)
  scan-Scanned input (suc count) h i bytes l =
      let (byte_out, out_e) = at-Returns input (i - cfg.window_size) (omega arith) in
      let (byte_in, in_e) = at-Returns input i (omega arith) in
      let (h', slid) =
        slide-Returns h byte_out byte_in (at-All IsByte input _ byte_out bytes out_e)
          (at-All IsByte input i byte_in bytes in_e) in
      let (found, e, bounds) = scan-Scanned input count h' (i + 1) bytes (omega arith) in
      let first : scan bz input (suc count) h i
          ≡ (elim (is_boundary cfg h') as (λ x. Result ChunkError (Option ℕ)) [
            | true ↦ ok (some (i + 1))
            | false ↦ scan bz input count h' (i + 1)
          ]) =
        bind_ok (at input (i - cfg.window_size)) _ byte_out out_e
        ∙ (bind_ok (at input i) _ byte_in in_e ∙ bind_ok (slide bz h byte_out byte_in) _ h' slid) in
      elim (Bool-cases (is_boundary cfg h')) [
        | inl yes_e ↦ (some (i + 1), first ∙ rw yes_e refl, λ stop g. here i count stop g)
        | inr no_e ↦ (found, first ∙ rw no_e e, λ stop g. omega (arith, bounds stop g))
      ]
    where
      here : (i count stop : ℕ) → some (i + 1) ≡ some stop → (i < stop) × (stop ≤ i + suc count)
      here i count stop g = let same : i + 1 ≡ stop = cc in omega arith
