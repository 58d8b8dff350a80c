-- ===== src/Pack/Decoded.antt =====
-- `decode_pack` gives back what was encrypted into a pack.
use arq_backup_tui.Common.{
  ℕ, ◌+◌, ◌≡◌, refl, ◌∙◌, Bool, true, false, none, List, [], ◌∷◌, ◌++◌, arith, All, length, take,
  drop, list_eq_iff,
}
use mathlib.Core.List.{flatten}
use arq_backup_tui.Common.Slices.{slice, slice_next, drop_next}
use arq_backup_tui.Common.Result.{ok}
use arq_backup_tui.Crypto.Primitives.{Primitives, PrimitiveLaws}
use arq_backup_tui.Crypto.Object.{
  arqo_magic, Drawn, build_encrypted_object, verify_encrypted_object_hmac,
}
use arq_backup_tui.Crypto.ObjectRoundTrip.{
  decrypt_encrypted_object-build_encrypted_object, authentic, verify_computed,
}
use arq_backup_tui.Pack.Index.{PackEntry, whole_entry}
use arq_backup_tui.Pack.Objects.{IsObject}
use arq_backup_tui.Pack.Recovered.{entries_from, reconstruct_index-flatten}
use arq_backup_tui.Pack.Decode.{decode_entries, decode_pack}

-- Objects with their plaintexts.
abbrev pub objects_of : List (List ℕ × List ℕ) → List (List ℕ)
objects_of [] = []
objects_of ((object, plaintext) ∷ blobs) = object ∷ objects_of blobs

-- What a decoder of blobs that lie back to back from `start` on is to yield.
abbrev pub decoded_from : ℕ → List (List ℕ × List ℕ) → List (PackEntry × List ℕ)
decoded_from start [] = []
decoded_from start ((object, plaintext) ∷ blobs) =
    (whole_entry start (length object), plaintext) ∷ decoded_from (start + length object) blobs

-- The object is one that the writer makes of the plaintext, with some random bytes.
abbrev pub IsBuilt : Primitives → List ℕ → List ℕ → List ℕ × List ℕ → Type 0
IsBuilt p ek hk blob =
    (drawn : Drawn) × (build_encrypted_object p blob.1 ek hk none none none drawn ≡ ok blob.0)

module _ (p : Primitives) (laws : PrimitiveLaws p) (ek hk : List ℕ) where
  built_verifies :
      (object plaintext : List ℕ)
      → IsBuilt p ek hk (object, plaintext)
      → (verify_encrypted_object_hmac p object hk).0 ≡ true
  built_verifies object plaintext (drawn, e) =
      let opened =
        decrypt_encrypted_object-build_encrypted_object p laws plaintext ek hk none none none drawn
          object false e in
      let (long, magic, mac) = authentic p object ek hk plaintext opened in
      verify_computed p object hk (ground arith) ((list_eq_iff (take 4 object) arqo_magic).1 magic)
      ∙ (list_eq_iff (p.hmac hk (drop 36 object)) (slice object 4 32)).1 mac

  decode_entries_built :
      (pack : List ℕ) (skip : Bool) (start : ℕ) (blobs : List (List ℕ × List ℕ))
      → drop start pack ≡ flatten (objects_of blobs)
      → All (IsBuilt p ek hk) blobs
      → decode_entries p pack ek hk skip (entries_from start (objects_of blobs))
        ≡ record { yielded = decoded_from start blobs; raised = none }
  unfolding decode_entries
  decode_entries_built pack skip start [] e h = refl
  decode_entries_built pack skip start ((object, plaintext) ∷ blobs) e ((drawn, b), h) =
      let here : drop start pack ≡ object ++ flatten (objects_of blobs) = unfold flatten in e in
      let opened =
        decrypt_encrypted_object-build_encrypted_object p laws plaintext ek hk none none none drawn
          object true b in
      rw (slice_next pack object (flatten (objects_of blobs)) start (length object) here refl) (
        rw (built_verifies object plaintext (drawn, b)) (
          rw opened (
            rw
              (decode_entries_built pack skip (start + length object) blobs
                (drop_next pack object (flatten (objects_of blobs)) start (length object) here refl)
                h)
              refl)))

  -- A pack of objects that the writer made under the two keys, back to back, is decoded to their
  -- plaintexts, in order, each with its offset and length, and nothing is raised, where no object has a
  -- magic inside at a place where what is before it has the shape of an object.
  pub decode_pack-flatten :
      (blobs : List (List ℕ × List ℕ)) (skip : Bool)
      → All (IsBuilt p ek hk) blobs
      → All IsObject (objects_of blobs)
      → decode_pack p (flatten (objects_of blobs)) ek hk skip
        ≡ record { yielded = decoded_from 0 blobs; raised = none }
  unfolding decode_pack
  decode_pack-flatten blobs skip built objects =
      rw (reconstruct_index-flatten (objects_of blobs) objects, decode_pack)
        (decode_entries_built (flatten (objects_of blobs)) skip 0 blobs refl built)
