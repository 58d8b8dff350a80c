-- ===== src/Crypto/Keyset.antt =====
-- The keyset file: `build_encrypted_keyset`, `rotate_keyset_password`, and the validator's pipeline
-- behind `decrypt_keyset`.
use arq_backup_tui.Common.{
  ℕ, ◌%◌, Bool, not, ◌&&◌, Option, none, List, [], ◌∷◌, ◌++◌, length, take, drop, ltb, list_eq,
  ◌==◌, if◌then◌else◌,
}
use arq_backup_tui.Common.Slices.{slice}
use arq_backup_tui.Common.Result.{Result, ok, err, ◌>>=◌}
use arq_backup_tui.Wire.Bytes.{big_endian, from_big_endian}
use arq_backup_tui.Wire.Errors.{WriteError}
use arq_backup_tui.Wire.Utf8.{encode}
use arq_backup_tui.Crypto.Primitives.{
  Primitives, CryptoError, wrong_iv_size, wrong_field_size, bad_password_text, keyset_too_short,
  bad_keyset_magic, not_block_aligned, keyset_hmac_mismatch, plaintext_too_short,
  unexpected_version, unexpected_length, aes_256_cbc_encrypt, aes_256_cbc_decrypt,
}
use arq_backup_tui.Crypto.Object.{given_or_drawn}

-- "ARQ_ENCRYPTED_MASTER_KEYS"
abbrev pub keyset_magic : List ℕ
keyset_magic =
    0x41 ∷ 0x52 ∷ 0x51 ∷ 0x5f ∷ 0x45 ∷ 0x4e ∷ 0x43 ∷ 0x52 ∷ 0x59 ∷ 0x50 ∷ 0x54 ∷ 0x45 ∷ 0x44 ∷ 0x5f
    ∷ 0x4d ∷ 0x41 ∷ 0x53 ∷ 0x54 ∷ 0x45 ∷ 0x52 ∷ 0x5f ∷ 0x4b ∷ 0x45 ∷ 0x59 ∷ 0x53 ∷ []

pub record Keyset : Type 0 where
  pub encryption_key : List ℕ
  pub hmac_key : List ℕ
  pub blob_id_salt : List ℕ

-- The four parts that `parse_keyset_storage` returns.
pub record KeysetStorage : Type 0 where
  pub salt : List ℕ
  pub hmac_stored : List ℕ
  pub iv : List ℕ
  pub ciphertext : List ℕ

unfoldable pub parse_keyset_storage : List ℕ → Result CryptoError KeysetStorage
parse_keyset_storage file =
    let ciphertext = drop 81 file in
    if ltb (length file) 81
    then err keyset_too_short
    else if list_eq (take 25 file) keyset_magic
    then (if not (length ciphertext == 0) && (length ciphertext % 16 == 0)
        then ok record {
          salt = slice file 25 8;
          hmac_stored = slice file 33 32;
          iv = slice file 65 16;
          ciphertext = ciphertext;
        }
        else err not_block_aligned)
    else err bad_keyset_magic

abbrev password_bytes : Result WriteError (List ℕ) → Result CryptoError (List ℕ)
password_bytes (ok bytes) = ok bytes
password_bytes (err raised) = err bad_password_text

-- The key for AES and the key for the HMAC.
unfoldable pub derive_keyset_keys :
    Primitives → List ℕ → List ℕ → Result CryptoError (List ℕ × List ℕ)
derive_keyset_keys p password salt = password_bytes (encode password) >>= λ bytes.
    let derived = p.pbkdf2 bytes salt in ok (take 32 derived, drop 32 derived)

unfoldable pub verify_keyset_hmac : Primitives → List ℕ → List ℕ → List ℕ → List ℕ → Bool
verify_keyset_hmac p hmac_key iv ciphertext expected =
    list_eq (p.hmac hmac_key (iv ++ ciphertext)) expected

abbrev pub field_length_at : List ℕ → ℕ → ℕ
field_length_at plaintext o = from_big_endian 0 (slice plaintext o 8)

unfoldable pub parse_keyset_plaintext : List ℕ → Result CryptoError Keyset
parse_keyset_plaintext plaintext =
    if ltb (length plaintext) 124
    then err plaintext_too_short
    else if from_big_endian 0 (slice plaintext 0 4) == 3
    then (if field_length_at plaintext 4 == 32
        then (if field_length_at plaintext 44 == 32
            then (if field_length_at plaintext 84 == 32
                then ok record {
                  encryption_key = slice plaintext 12 32;
                  hmac_key = slice plaintext 52 32;
                  blob_id_salt = slice plaintext 92 32;
                }
                else err unexpected_length)
            else err unexpected_length)
        else err unexpected_length)
    else err unexpected_version

unfoldable pub decrypt_keyset : Primitives → List ℕ → List ℕ → Result CryptoError Keyset
decrypt_keyset p file password = parse_keyset_storage file >>= λ parts.
    derive_keyset_keys p password parts.salt >>= λ keys.
    if verify_keyset_hmac p keys.1 parts.iv parts.ciphertext parts.hmac_stored
    then (aes_256_cbc_decrypt p keys.0 parts.iv parts.ciphertext >>= λ plaintext.
        parse_keyset_plaintext plaintext)
    else err keyset_hmac_mismatch

unfoldable pub keyset_plaintext : Keyset → List ℕ
keyset_plaintext keyset =
    big_endian 4 3
    ++ (big_endian 8 32
        ++ (keyset.encryption_key
            ++ (big_endian 8 32 ++ (keyset.hmac_key ++ (big_endian 8 32 ++ keyset.blob_id_salt)))))

unfoldable pub keyset_file : Primitives → List ℕ → List ℕ → List ℕ → List ℕ → List ℕ
keyset_file p mac_key salt iv ciphertext =
    keyset_magic ++ (salt ++ (p.hmac mac_key (iv ++ ciphertext) ++ (iv ++ ciphertext)))

-- The random bytes of one keyset file.
pub record DrawnKeyset : Type 0 where
  pub salt : List ℕ
  pub iv : List ℕ

-- The master keys are taken together.
unfoldable pub build_encrypted_keyset :
    Primitives
    → List ℕ
    → Keyset
    → Option (List ℕ)
    → Option (List ℕ)
    → DrawnKeyset
    → Result CryptoError (List ℕ)
build_encrypted_keyset p password keyset salt iv drawn =
    if length keyset.encryption_key == 32
    then (if length keyset.hmac_key == 32
        then (if length keyset.blob_id_salt == 32
            then (given_or_drawn 8 wrong_field_size salt drawn.salt >>= λ used_salt.
                given_or_drawn 16 wrong_iv_size iv drawn.iv >>= λ used_iv.
                derive_keyset_keys p password used_salt >>= λ keys.
                aes_256_cbc_encrypt p keys.0 used_iv (keyset_plaintext keyset) >>= λ ciphertext.
                ok (keyset_file p keys.1 used_salt used_iv ciphertext))
            else err wrong_field_size)
        else err wrong_field_size)
    else err wrong_field_size

unfoldable pub rotate_keyset_password :
    Primitives → List ℕ → List ℕ → List ℕ → DrawnKeyset → Result CryptoError (List ℕ)
rotate_keyset_password p keyset_blob old_password new_password drawn =
    decrypt_keyset p keyset_blob old_password >>= λ keyset.
    build_encrypted_keyset p new_password keyset none none drawn
