-- ===== src/Pack/Stored.antt =====
-- Where a blob that `PackBuilder.add` took stands: in the buffer, or in a file under the path of its
-- location. Each operation of arq_writer/pack_builder.py keeps that.
use arq_backup_tui.Common.{
  ℕ, suc, ◌<◌, ◌≡◌, ◌≢◌, refl, sym, ◌∙◌, some, List, [], ◌∷◌, ◌++◌, append_assoc, append-nil, arith,
  length, take, drop,
}
use arq_backup_tui.Common.Slices.{slice, take-append_length, drop-append_length}
use arq_backup_tui.Wire.Types.{Text, BlobLoc}
use arq_backup_tui.Pack.Dict.{get, get-put_self, get-put_ne}
use arq_backup_tui.Pack.Builder.{
  PackBuilder, allocate_pack_path, flush, location, append_blob, codes,
}

-- A uuid4 that was drawn before is not drawn again, and its text has 36 characters.
pub record UuidLaws (uuid : ℕ → Text) : Type 0 where
  pub distinct : (i j : ℕ) → uuid i ≡ uuid j → i ≡ j
  pub length_36 : (i : ℕ) → length (uuid i) ≡ 36

append_cancel_left : (xs ys zs : List ℕ) → xs ++ ys ≡ xs ++ zs → ys ≡ zs
append_cancel_left [] ys zs e = e
append_cancel_left (x ∷ xs) ys zs e = append_cancel_left xs ys zs (cc (e))

append_split : (s t u v : List ℕ) → length s ≡ length t → s ++ u ≡ t ++ v → s ≡ t
append_split [] [] u v h e = refl
append_split [] (y ∷ t) u v h e = absurd (omega arith)
append_split (x ∷ s) [] u v h e = absurd (omega arith)
append_split (x ∷ s) (y ∷ t) u v h e = ground (arith, append_split s t u v)

-- An id is read off the shard and the name of its path.
two_and_rest :
    (s t tail : List ℕ)
    → length s ≡ 36
    → length t ≡ 36
    → take 2 s ++ (codes "/" ++ (drop 2 s ++ tail)) ≡ take 2 t ++ (codes "/" ++ (drop 2 t ++ tail))
    → s ≡ t
two_and_rest (a ∷ b ∷ s) (c ∷ d ∷ t) tail h k e = ground (arith, append_split s t tail tail)
two_and_rest s t tail h k e = absurd (omega arith)

-- Paths of different draws differ.
pub path-distinct :
    (uuid : ℕ → Text)
    → UuidLaws uuid
    → (cu family : Text) (i j : ℕ) → i ≢ j
    → allocate_pack_path uuid cu family i ≢ allocate_pack_path uuid cu family j
unfolding allocate_pack_path
path-distinct uuid laws cu family i j h e = h (
    laws.distinct i j (
      two_and_rest (uuid i) (uuid j) (codes ".pack") (laws.length_36 i) (laws.length_36 j) (
        append_cancel_left (codes "/") _ _ (
          append_cancel_left family _ _ (
            append_cancel_left (codes "/") _ _
              (append_cancel_left cu _ _ (append_cancel_left (codes "/") _ _ e)))))))

-- `body` holds `arqo` at the offset and over the length of the location.
pub record Holds (body : List ℕ) (loc : BlobLoc) (arqo : List ℕ) : Type 0 where
  pub before : List ℕ
  pub after : List ℕ
  pub split : body ≡ before ++ (arqo ++ after)
  pub offset : loc.offset ≡ length before
  pub size : loc.length ≡ length arqo

pub Holds-slice :
    (body : List ℕ) (loc : BlobLoc) (arqo : List ℕ)
    → Holds body loc arqo
    → slice body loc.offset loc.length ≡ arqo
Holds-slice body loc arqo h =
    rw (h.split, drop-append_length h.before (arqo ++ h.after) loc.offset h.offset)
      (take-append_length arqo h.after loc.length h.size)

Holds-append :
    (body more : List ℕ) (loc : BlobLoc) (arqo : List ℕ)
    → Holds body loc arqo
    → Holds (body ++ more) loc arqo
Holds-append body more loc arqo h = record {
  before = h.before;
  after = h.after ++ more;
  split = rw (h.split, append_assoc, append_assoc);
  offset = h.offset;
  size = h.size;
}

module _ (uuid : ℕ → Text) (laws : UuidLaws uuid) where
  -- A location is of the pack that is being filled, or of an earlier one, which is a file.
  pub data Stored (b : PackBuilder) (loc : BlobLoc) (arqo : List ℕ) : Type 0 where
    buffered :
        loc.relative_path ≡ b.current_relative_path → Holds b.buffer loc arqo → Stored b loc arqo
    on_disk :
        (i : ℕ) (body : List ℕ)
        → suc i < b.drawn
        → loc.relative_path ≡ allocate_pack_path uuid b.computer_uuid b.family i
        → get b.files loc.relative_path ≡ some body
        → Holds body loc arqo
        → Stored b loc arqo

  -- The current path is that of the newest draw.
  abbrev pub IsCurrent : PackBuilder → Type 0
  IsCurrent b =
      (n : ℕ) × (b.drawn ≡ suc n)
      × (b.current_relative_path ≡ allocate_pack_path uuid b.computer_uuid b.family n)

  pub Stored-flush :
      (b : PackBuilder) (loc : BlobLoc) (arqo : List ℕ)
      → IsCurrent b
      → Stored b loc arqo
      → Stored (flush uuid b) loc arqo
  unfolding flush
  Stored-flush b loc arqo (n, d, c) (buffered p h) =
      on_disk n b.buffer (omega arith) (p ∙ c)
        (rw p (get-put_self b.files b.current_relative_path b.buffer)) h
  Stored-flush b loc arqo (n, d, c) (on_disk i body l p g h) =
      on_disk i body (omega arith) p
        (get-put_ne b.files b.current_relative_path loc.relative_path b.buffer (λ e.
            path-distinct uuid laws b.computer_uuid b.family n i (omega arith) (sym c ∙ e ∙ p))
          ∙ g)
        h

  pub IsCurrent-flush : (b : PackBuilder) → IsCurrent b → IsCurrent (flush uuid b)
  unfolding flush
  IsCurrent-flush b (n, d, c) = (b.drawn, omega arith, refl)

  pub Stored-append_blob :
      (b : PackBuilder) (id : Text) (new : List ℕ) (loc : BlobLoc) (arqo : List ℕ)
      → Stored b loc arqo
      → Stored (append_blob uuid b id new).0 loc arqo
  unfolding append_blob
  Stored-append_blob b id new loc arqo (buffered p h) =
      buffered p (Holds-append b.buffer new loc arqo h)
  Stored-append_blob b id new loc arqo (on_disk i body l p g h) = on_disk i body l p g h

  -- The blob that is appended stands at the location that is returned.
  pub Stored-append_blob_new :
      (b : PackBuilder) (id : Text) (new : List ℕ)
      → Stored (append_blob uuid b id new).0 (append_blob uuid b id new).1 new
  unfolding append_blob location
  Stored-append_blob_new b id new =
      buffered refl (record {
        before = b.buffer;
        after = [];
        split = rw append-nil;
        offset = refl;
        size = refl;
      })
