-- ===== src/Crypto/RotationKeeps.antt =====
-- A password rotation keeps the master keys, and one that is cut off loses no keyset.
use arq_backup_tui.Common.{
  ℕ, zero, suc, ◌≡◌, ◌≢◌, refl, sym, ap, subst, Option-cases, ◌∙◌, Bool, true, false, Option, none,
  some, List, [], ◌∷◌, ◌++◌, ◌⊎◌, inl, inr, length, get_or, arith, take, ◌≤◌,
}
use arq_backup_tui.Common.Result.{Result, ok, err, bind_returned}
use arq_backup_tui.Wire.Types.{Text}
use arq_backup_tui.Pack.Dict.{Dict, get, put, get-put_self, get-put_ne}
use arq_backup_tui.Pack.Builder.{codes}
use arq_backup_tui.Crypto.Primitives.{Primitives, PrimitiveLaws, CryptoError}
use arq_backup_tui.Crypto.Keyset.{Keyset, DrawnKeyset, decrypt_keyset, rotate_keyset_password}
use arq_backup_tui.Crypto.KeysetRoundTrip.{decrypt_keyset-build_encrypted_keyset}
use arq_backup_tui.Crypto.Rotation.{
  missing_keyset, keyset_path, archive_path, read_all, lift_crypto, write_files, rotation_writes,
  rotated, rotate_keyset_password_on_disk,
}

append_cancel : (xs ys zs : List ℕ) → xs ++ ys ≡ xs ++ zs → ys ≡ zs
append_cancel [] ys zs e = e
append_cancel (x ∷ xs) ys zs e = append_cancel xs ys zs cc

letters_differ : ◌≢◌ {A = ℕ} 0x6b 0x65
letters_differ e = omega arith

archive_path-ne-keyset_path :
    (computer_uuid epoch : Text) → archive_path computer_uuid epoch ≢ keyset_path computer_uuid
unfolding archive_path keyset_path
archive_path-ne-keyset_path computer_uuid epoch e =
    let rest =
      append_cancel computer_uuid
        (codes "/keyset_history/encryptedkeyset_" ++ (epoch ++ codes ".dat"))
        (codes "/encryptedkeyset.dat") cc in
    absurd (letters_differ (ap (λ t. get_or t 1 0) rest))

-- The files of a rotation that stopped after any number of its writes.
abbrev pub Survives : Text → Text → Bool → List ℕ → List ℕ → Dict (List ℕ) → Type 0
Survives computer_uuid epoch archive_old old_blob new_blob files =
    (get files (keyset_path computer_uuid) ≡ some old_blob)
    ⊎ ((get files (keyset_path computer_uuid) ≡ some new_blob)
        × ((archive_old ≡ false) ⊎ (get files (archive_path computer_uuid epoch) ≡ some old_blob)))

module _ (p : Primitives) (laws : PrimitiveLaws p) where
  -- A keyset file that rotate_keyset_password returns opens under the new password as the same master
  -- keys as the old file does under the old one, where the drawn salt has 8 bytes.
  pub rotate_keyset_password-keeps :
      (blob old_password new_password : List ℕ) (drawn : DrawnKeyset) (new_blob : List ℕ)
      → length drawn.salt ≡ 8
      → rotate_keyset_password p blob old_password new_password drawn ≡ ok new_blob
      → (keyset : Keyset) × (decrypt_keyset p blob old_password ≡ ok keyset)
        × (decrypt_keyset p new_blob new_password ≡ ok keyset)
  unfolding rotate_keyset_password
  rotate_keyset_password-keeps blob old_password new_password drawn new_blob l h =
      let (keyset, opened, built) =
        bind_returned (decrypt_keyset p blob old_password) _ new_blob h in
      (
        keyset,
        opened,
        decrypt_keyset-build_encrypted_keyset p laws new_password keyset none none drawn new_blob l
            built,
      )

  archived :
      (files : Dict (List ℕ)) (computer_uuid epoch : Text) (old_blob new_blob : List ℕ)
      → Survives computer_uuid epoch true old_blob new_blob (
          put
            (put files (archive_path computer_uuid epoch) old_blob)
            (keyset_path computer_uuid)
            new_blob)
  archived files computer_uuid epoch old_blob new_blob =
      let first = put files (archive_path computer_uuid epoch) old_blob in
      inr (
        get-put_self first (keyset_path computer_uuid) new_blob,
        inr (
            get-put_ne first (keyset_path computer_uuid) (archive_path computer_uuid epoch) new_blob
              (λ e. archive_path-ne-keyset_path computer_uuid epoch (sym e))
            ∙ get-put_self files (archive_path computer_uuid epoch) old_blob),
      )

  overwritten :
      (files : Dict (List ℕ)) (computer_uuid epoch : Text) (old_blob new_blob : List ℕ)
      → Survives computer_uuid epoch false old_blob new_blob
          (put files (keyset_path computer_uuid) new_blob)
  overwritten files computer_uuid epoch old_blob new_blob =
      inr (get-put_self files (keyset_path computer_uuid) new_blob, inl refl)

  Survives-cut :
      (files : Dict (List ℕ)) (computer_uuid epoch : Text) (archive_old : Bool)
      (old_blob new_blob : List ℕ) (cut : ℕ)
      → get files (keyset_path computer_uuid) ≡ some old_blob
      → Survives computer_uuid epoch archive_old old_blob new_blob (
          write_files files
            (take cut (rotation_writes computer_uuid epoch archive_old old_blob new_blob)))
  unfolding rotation_writes write_files
  Survives-cut files computer_uuid epoch archive_old old_blob new_blob zero h = inl h
  Survives-cut files computer_uuid epoch true old_blob new_blob (suc zero) h = inl (
      rw
        (get-put_ne files (archive_path computer_uuid epoch) (keyset_path computer_uuid) old_blob
          (archive_path-ne-keyset_path computer_uuid epoch))
        h)
  Survives-cut files computer_uuid epoch true old_blob new_blob (suc (suc zero)) h =
      archived files computer_uuid epoch old_blob new_blob
  Survives-cut files computer_uuid epoch true old_blob new_blob (suc (suc (suc cut))) h =
      archived files computer_uuid epoch old_blob new_blob
  Survives-cut files computer_uuid epoch false old_blob new_blob (suc zero) h =
      overwritten files computer_uuid epoch old_blob new_blob
  Survives-cut files computer_uuid epoch false old_blob new_blob (suc (suc cut)) h =
      overwritten files computer_uuid epoch old_blob new_blob

  completed :
      (files : Dict (List ℕ)) (computer_uuid epoch : Text) (archive_old : Bool)
      (old_blob new_blob : List ℕ) (cut : ℕ)
      → (cut ≤ 1)
        ⊎ (get
              (write_files files
                (take cut (rotation_writes computer_uuid epoch archive_old old_blob new_blob)))
              (keyset_path computer_uuid)
            ≡ some new_blob)
  unfolding rotation_writes write_files
  completed files computer_uuid epoch archive_old old_blob new_blob zero = inl (omega arith)
  completed files computer_uuid epoch archive_old old_blob new_blob (suc zero) = inl (omega arith)
  completed files computer_uuid epoch true old_blob new_blob (suc (suc zero)) = inr (
      get-put_self (put files (archive_path computer_uuid epoch) old_blob)
        (keyset_path computer_uuid) new_blob)
  completed files computer_uuid epoch true old_blob new_blob (suc (suc (suc cut))) = inr (
      get-put_self (put files (archive_path computer_uuid epoch) old_blob)
        (keyset_path computer_uuid) new_blob)
  completed files computer_uuid epoch false old_blob new_blob (suc (suc cut)) =
      inr (get-put_self files (keyset_path computer_uuid) new_blob)

  content_of_read :
      (files : Dict (List ℕ)) (path : Text) (content : List ℕ)
      → read_all files path ≡ ok content
      → get files path ≡ some content
  unfolding read_all
  content_of_read files path content h = elim (Option-cases (get files path)) [
    | inl missing ↦ absurd (of_missing (get files path) missing h)
    | inr (found, e) ↦ cc
  ]
    where
      of_missing :
          (o : Option (List ℕ))
          → o ≡ none
          → (elim o [ none ↦ err missing_keyset | some c ↦ ok c ]) ≢ ok content
      of_missing none e h = cc
      of_missing (some c) e h = cc

  lift_returned :
      (r : Result CryptoError (List ℕ)) (value : List ℕ) → lift_crypto r ≡ ok value → r ≡ ok value
  lift_returned (ok v) value h = cc
  lift_returned (err raised) value h = cc

  parts_of_rotated :
      (files : Dict (List ℕ)) (computer_uuid old_password new_password : List ℕ)
      (drawn : DrawnKeyset) (blobs : List ℕ × List ℕ)
      → rotated p files computer_uuid old_password new_password drawn ≡ ok blobs
      → (get files (keyset_path computer_uuid) ≡ some blobs.0)
        × (rotate_keyset_password p blobs.0 old_password new_password drawn ≡ ok blobs.1)
  unfolding rotated read_all
  parts_of_rotated files computer_uuid old_password new_password drawn blobs h =
      let (old_blob, e1, h1) =
        bind_returned (read_all files (keyset_path computer_uuid)) _ blobs h in
      let (new_blob, e2, h2) =
        bind_returned
          (lift_crypto (rotate_keyset_password p old_blob old_password new_password drawn)) _ blobs
          h1 in
      let stored = content_of_read files (keyset_path computer_uuid) old_blob e1 in
      let rotate =
        lift_returned (rotate_keyset_password p old_blob old_password new_password drawn) new_blob
          e2 in
      (cc, cc)

  -- A rotation on disk that gets to its writes and stops after any number of them leaves as the live
  -- keyset file the old bytes, or the new bytes with the old ones in the archive where archiving is on;
  -- with all writes made the live file is the new one. Both open, each under its password, as the same
  -- master keys. The drawn salt has 8 bytes.
  pub rotate_keyset_password_on_disk-Survives :
      (files : Dict (List ℕ)) (computer_uuid old_password new_password : List ℕ)
      (archive_old : Bool) (epoch : Text) (drawn : DrawnKeyset) (cut : ℕ) (files' : Dict (List ℕ))
      (new_blob : List ℕ)
      → length drawn.salt ≡ 8
      → rotate_keyset_password_on_disk p files computer_uuid old_password new_password archive_old
          epoch drawn cut
        ≡ ok (files', new_blob)
      → (old_blob : List ℕ) × (keyset : Keyset) × (decrypt_keyset p old_blob old_password
          ≡ ok keyset)
        × (decrypt_keyset p new_blob new_password ≡ ok keyset)
        × (get files (keyset_path computer_uuid) ≡ some old_blob)
        × Survives computer_uuid epoch archive_old old_blob new_blob files'
        × ((cut ≤ 1) ⊎ (get files' (keyset_path computer_uuid) ≡ some new_blob))
  unfolding rotate_keyset_password_on_disk
  rotate_keyset_password_on_disk-Survives files computer_uuid old_password new_password archive_old
        epoch drawn cut files' new_blob l h =
      let (blobs, e, h1) =
        bind_returned (rotated p files computer_uuid old_password new_password drawn) _
          (files', new_blob) h in
      let (stored, rotate) =
        parts_of_rotated files computer_uuid old_password new_password drawn blobs e in
      let (keyset, opened, reopened) =
        rotate_keyset_password-keeps blobs.0 old_password new_password drawn blobs.1 l rotate in
      let safe = Survives-cut files computer_uuid epoch archive_old blobs.0 blobs.1 cut stored in
      let done = completed files computer_uuid epoch archive_old blobs.0 blobs.1 cut in
      let same : blobs.1 ≡ new_blob = cc in
      let written : write_files files
            (take cut (rotation_writes computer_uuid epoch archive_old blobs.0 blobs.1))
          ≡ files' =
        cc in
      (
        blobs.0,
        keyset,
        opened,
        subst (λ b. decrypt_keyset p b new_password ≡ ok keyset) same reopened,
        stored,
        subst (λ b. Survives computer_uuid epoch archive_old blobs.0 b files') same
            (subst (λ f. Survives computer_uuid epoch archive_old blobs.0 blobs.1 f) written safe),
        subst (λ b. (cut ≤ 1) ⊎ (get files' (keyset_path computer_uuid) ≡ some b)) same
            (subst (λ f. (cut ≤ 1) ⊎ (get f (keyset_path computer_uuid) ≡ some blobs.1)) written
              done),
      )
