-- ===== src/Crypto/Rotation.antt =====
-- `rotate_keyset_password_on_disk`. The backend is a dictionary of files; the writes are a list, so
-- that a rotation that is cut off is a prefix of it. `mkdir` makes no file, and is left out.
use arq_backup_tui.Common.{ℕ, Bool, none, some, List, [], ◌∷◌, ◌++◌, take, if◌then◌else◌}
use arq_backup_tui.Common.Result.{Result, ok, err, ◌>>=◌}
use arq_backup_tui.Wire.Types.{Text}
use arq_backup_tui.Pack.Dict.{Dict, get, put}
use arq_backup_tui.Pack.Builder.{codes}
use arq_backup_tui.Crypto.Primitives.{Primitives, CryptoError}
use arq_backup_tui.Crypto.Keyset.{DrawnKeyset, rotate_keyset_password}

-- `backend.read_all` of a missing file; what the cryptography raises.
pub data RotationError : Type 0 where
  missing_keyset : RotationError
  rotation_failed : CryptoError → RotationError

unfoldable pub keyset_path : Text → Text
keyset_path computer_uuid = codes "/" ++ (computer_uuid ++ codes "/encryptedkeyset.dat")

-- `epoch` is the decimal text of the rotation's time.
unfoldable pub archive_path : Text → Text → Text
archive_path computer_uuid epoch =
    codes "/"
    ++ (computer_uuid ++ (codes "/keyset_history/encryptedkeyset_" ++ (epoch ++ codes ".dat")))

unfoldable pub read_all : Dict (List ℕ) → Text → Result RotationError (List ℕ)
read_all files path = elim (get files path) [
  | none ↦ err missing_keyset
  | some content ↦ ok content
]

abbrev pub lift_crypto : Result CryptoError (List ℕ) → Result RotationError (List ℕ)
lift_crypto (ok value) = ok value
lift_crypto (err raised) = err (rotation_failed raised)

unfoldable pub write_files : Dict (List ℕ) → List (Text × List ℕ) → Dict (List ℕ)
write_files files [] = files
write_files files ((path, content) ∷ writes) = write_files (put files path content) writes

-- The writes of the rotation, in their order.
unfoldable pub rotation_writes : Text → Text → Bool → List ℕ → List ℕ → List (Text × List ℕ)
rotation_writes computer_uuid epoch archive_old old_blob new_blob =
    if archive_old
    then (archive_path computer_uuid epoch, old_blob) ∷ (keyset_path computer_uuid, new_blob) ∷ []
    else (keyset_path computer_uuid, new_blob) ∷ []

-- The old bytes and the new bytes, before anything is written.
unfoldable pub rotated :
    Primitives
    → Dict (List ℕ)
    → Text
    → List ℕ
    → List ℕ
    → DrawnKeyset
    → Result RotationError (List ℕ × List ℕ)
rotated p files computer_uuid old_password new_password drawn =
    read_all files (keyset_path computer_uuid) >>= λ old_blob.
    lift_crypto (rotate_keyset_password p old_blob old_password new_password drawn) >>= λ new_blob.
    ok (old_blob, new_blob)

-- The files after the first `cut` writes, and the new bytes; all writes for a `cut` of 2 or more.
unfoldable pub rotate_keyset_password_on_disk :
    Primitives
    → Dict (List ℕ)
    → Text
    → List ℕ
    → List ℕ
    → Bool
    → Text
    → DrawnKeyset
    → ℕ
    → Result RotationError (Dict (List ℕ) × List ℕ)
rotate_keyset_password_on_disk p files computer_uuid old_password new_password archive_old epoch
      drawn cut =
    rotated p files computer_uuid old_password new_password drawn >>= λ blobs. ok (
      write_files files
          (take cut (rotation_writes computer_uuid epoch archive_old blobs.0 blobs.1)),
      blobs.1,
    )
