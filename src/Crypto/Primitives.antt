-- ===== src/Crypto/Primitives.antt =====
-- What the encryption code calls and does not contain: AES-256-CBC by the `openssl` command,
-- HMAC-SHA256, PBKDF2-SHA256 and SHA-256. They are parameters, a record of functions, with the
-- documented laws that the code relies on; and the two wrappers around the command.
use arq_backup_tui.Common.{
  ℕ, ◌+◌, ◌*◌, ◌/◌, ◌≡◌, arith, Option, none, some, List, length, ◌==◌, if◌then◌else◌,
}
use arq_backup_tui.Common.Result.{Result, ok, err}

-- `none` for an openssl that is missing or ends with an error. `pbkdf2` has the program's 200,000
-- rounds and 64 bytes of output in it.
pub record Primitives : Type 0 where
  pub encrypt : List ℕ → List ℕ → List ℕ → Option (List ℕ)
  pub decrypt : List ℕ → List ℕ → List ℕ → Option (List ℕ)
  pub hmac : List ℕ → List ℕ → List ℕ
  pub pbkdf2 : List ℕ → List ℕ → List ℕ
  pub sha256 : List ℕ → List ℕ

-- Decryption undoes encryption, PKCS7 pads to the next multiple of 16, and the digests have their sizes.
pub record PrimitiveLaws (p : Primitives) : Type 0 where
  pub decrypt-encrypt :
      (key iv plaintext out : List ℕ)
      → p.encrypt key iv plaintext ≡ some out
      → p.decrypt key iv out ≡ some plaintext
  pub length-encrypt :
      (key iv plaintext out : List ℕ)
      → p.encrypt key iv plaintext ≡ some out
      → length out ≡ (length plaintext / 16 + 1) * 16
  pub length-hmac : (key message : List ℕ) → length (p.hmac key message) ≡ 32
  pub length-pbkdf2 : (password salt : List ℕ) → length (p.pbkdf2 password salt) ≡ 64

-- The `CryptoError`s of the writer and of the validator, by their messages. `openssl_failed` stands for a
-- TimeoutExpired, too, which the source lets through where the command takes over 30 seconds.
pub data CryptoError : Type 0 where
  wrong_key_size wrong_iv_size openssl_failed : CryptoError
  wrong_field_size wrong_session_size bad_password_text : CryptoError
  keyset_too_short bad_keyset_magic not_block_aligned keyset_hmac_mismatch : CryptoError
  plaintext_too_short unexpected_version unexpected_length : CryptoError

abbrev of_option : Option (List ℕ) → Result CryptoError (List ℕ)
of_option none = err openssl_failed
of_option (some out) = ok out

unfoldable pub aes_256_cbc_encrypt :
    Primitives → List ℕ → List ℕ → List ℕ → Result CryptoError (List ℕ)
aes_256_cbc_encrypt p key iv plaintext =
    if length key == 32
    then (if length iv == 16 then of_option (p.encrypt key iv plaintext) else err wrong_iv_size)
    else err wrong_key_size

unfoldable pub aes_256_cbc_decrypt :
    Primitives → List ℕ → List ℕ → List ℕ → Result CryptoError (List ℕ)
aes_256_cbc_decrypt p key iv ciphertext =
    if length key == 32
    then (if length iv == 16 then of_option (p.decrypt key iv ciphertext) else err wrong_iv_size)
    else err wrong_key_size

-- What a call that returned says of its arguments and its result.
pub encrypt_returned :
    (p : Primitives) (key iv plaintext out : List ℕ)
    → aes_256_cbc_encrypt p key iv plaintext ≡ ok out
    → (length key ≡ 32) × (length iv ≡ 16) × (p.encrypt key iv plaintext ≡ some out)
unfolding aes_256_cbc_encrypt
encrypt_returned p key iv plaintext out h = ground arith

pub decrypt_of_encrypt :
    (p : Primitives) (key iv plaintext out : List ℕ)
    → PrimitiveLaws p
    → aes_256_cbc_encrypt p key iv plaintext ≡ ok out
    → aes_256_cbc_decrypt p key iv out ≡ ok plaintext
unfolding aes_256_cbc_decrypt
decrypt_of_encrypt p key iv plaintext out laws h =
    let (k, i, e) = encrypt_returned p key iv plaintext out h in
    let d = laws.decrypt-encrypt key iv plaintext out e in ground arith
