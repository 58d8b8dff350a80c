-- ===== src/Crypto/Object.antt =====
-- The encrypted object: `build_encrypted_object`, `verify_encrypted_object_hmac`,
-- `decrypt_encrypted_object`, `decrypt_lz4_arqo`, `compute_blob_id`.
use arq_backup_tui.Common.{
  ◌+◌, ◌/◌, ◌%◌, ℕ, Bool, false, Option, none, some, List, [], ◌∷◌, ◌++◌, length, take, drop, ltb,
  list_eq, ◌==◌, if◌then◌else◌,
}
use arq_backup_tui.Common.Slices.{slice}
use arq_backup_tui.Common.Result.{Result, ok, err, ◌>>=◌}
use arq_backup_tui.Lz4.Decompress.{Lz4Error, lz4_unwrap}
use arq_backup_tui.Crypto.Primitives.{
  Primitives, CryptoError, wrong_key_size, wrong_iv_size, wrong_session_size, aes_256_cbc_encrypt,
  aes_256_cbc_decrypt,
}

-- "ARQO"
abbrev pub arqo_magic : List ℕ
arqo_magic = 0x41 ∷ 0x52 ∷ 0x51 ∷ 0x4f ∷ []

-- A value that the caller may give; else what `secrets.token_bytes` draws.
unfoldable pub given_or_drawn :
    ℕ → CryptoError → Option (List ℕ) → List ℕ → Result CryptoError (List ℕ)
given_or_drawn size raised none drawn = ok drawn
given_or_drawn size raised (some given) drawn =
    if length given == size then ok given else err raised

-- The random bytes of one object.
pub record Drawn : Type 0 where
  pub session_key : List ℕ
  pub data_iv : List ℕ
  pub master_iv : List ℕ

-- `ARQO_MAGIC + mac + body`
unfoldable pub seal : Primitives → List ℕ → List ℕ → List ℕ → List ℕ → List ℕ
seal p hmac_key master_iv encrypted_session ciphertext =
    let body = master_iv ++ (encrypted_session ++ ciphertext) in
    arqo_magic ++ (p.hmac hmac_key body ++ body)

-- From the call that encrypts the session key on.
unfoldable pub encrypt_body :
    Primitives → List ℕ → List ℕ → List ℕ → List ℕ → List ℕ → List ℕ → Result CryptoError (List ℕ)
encrypt_body p plaintext encryption_key hmac_key session_key data_iv master_iv =
    aes_256_cbc_encrypt p encryption_key master_iv (data_iv ++ session_key) >>= λ encrypted_session.
    if length encrypted_session == 64
    then (aes_256_cbc_encrypt p session_key data_iv plaintext >>= λ ciphertext.
        ok (seal p hmac_key master_iv encrypted_session ciphertext))
    else err wrong_session_size

unfoldable pub build_encrypted_object :
    Primitives
    → List ℕ
    → List ℕ
    → List ℕ
    → Option (List ℕ)
    → Option (List ℕ)
    → Option (List ℕ)
    → Drawn
    → Result CryptoError (List ℕ)
build_encrypted_object p plaintext encryption_key hmac_key session_key data_iv master_iv drawn =
    if length encryption_key == 32
    then (if length hmac_key == 32
        then (given_or_drawn 32 wrong_key_size session_key drawn.session_key >>= λ sk.
            given_or_drawn 16 wrong_iv_size data_iv drawn.data_iv >>= λ div.
            given_or_drawn 16 wrong_iv_size master_iv drawn.master_iv >>= λ miv.
            encrypt_body p plaintext encryption_key hmac_key sk div miv)
        else err wrong_key_size)
    else err wrong_key_size

-- Whether the stored HMAC is that of the body, with both digests; empty ones for a malformed object.
unfoldable pub verify_encrypted_object_hmac : Primitives → List ℕ → List ℕ → Bool × List ℕ × List ℕ
verify_encrypted_object_hmac p object hmac_key =
    if ltb (length object) 116
    then (false, [], [])
    else if list_eq (take 4 object) arqo_magic
    then (let expected = slice object 4 32 in
        let actual = p.hmac hmac_key (drop 36 object) in
        (list_eq actual expected, expected, actual))
    else (false, [], [])

-- The `DecryptError`s, by their messages, and what `lz4_unwrap` raises.
pub data DecryptError : Type 0 where
  arqo_too_short bad_arqo_magic hmac_mismatch bad_session_length : DecryptError
  session_decrypt_failed payload_decrypt_failed : CryptoError → DecryptError
  unwrap_failed : Lz4Error → DecryptError

abbrev from_crypto :
    (CryptoError → DecryptError) → Result CryptoError (List ℕ) → Result DecryptError (List ℕ)
from_crypto wrap (ok value) = ok value
from_crypto wrap (err raised) = err (wrap raised)

abbrev from_lz4 : Result Lz4Error (List ℕ) → Result DecryptError (List ℕ)
from_lz4 (ok value) = ok value
from_lz4 (err raised) = err (unwrap_failed raised)

-- `if not ciphertext: return b""`, else the payload.
unfoldable pub decrypt_payload :
    Primitives → List ℕ → List ℕ → List ℕ → Result DecryptError (List ℕ)
decrypt_payload p session_key data_iv [] = ok []
decrypt_payload p session_key data_iv (b ∷ ciphertext) =
    from_crypto payload_decrypt_failed (aes_256_cbc_decrypt p session_key data_iv (b ∷ ciphertext))

-- The steps after the HMAC test.
unfoldable pub decrypt_body : Primitives → List ℕ → List ℕ → Result DecryptError (List ℕ)
decrypt_body p arqo encryption_key =
    from_crypto session_decrypt_failed
      (aes_256_cbc_decrypt p encryption_key (slice arqo 36 16) (slice arqo 52 64))
    >>= λ session_pt.
        if length session_pt == 48
        then decrypt_payload p (drop 16 session_pt) (take 16 session_pt) (drop 116 arqo)
        else err bad_session_length

unfoldable pub decrypt_encrypted_object :
    Primitives → List ℕ → List ℕ → List ℕ → Bool → Result DecryptError (List ℕ)
decrypt_encrypted_object p arqo encryption_key hmac_key skip_hmac =
    if ltb (length arqo) 116
    then err arqo_too_short
    else if list_eq (take 4 arqo) arqo_magic
    then (if skip_hmac
        then decrypt_body p arqo encryption_key
        else if (verify_encrypted_object_hmac p arqo hmac_key).0
        then decrypt_body p arqo encryption_key
        else err hmac_mismatch)
    else err bad_arqo_magic

unfoldable pub decrypt_lz4_arqo :
    Primitives → List ℕ → List ℕ → List ℕ → Bool → Result DecryptError (List ℕ)
decrypt_lz4_arqo p arqo encryption_key hmac_key skip_hmac =
    decrypt_encrypted_object p arqo encryption_key hmac_key skip_hmac >>= λ plaintext.
    from_lz4 (lz4_unwrap plaintext)

abbrev hex_digit : ℕ → ℕ
hex_digit d = if ltb d 10 then d + 0x30 else d + 0x57

-- `hexdigest`: two digits for a byte.
unfoldable pub hex_text : List ℕ → List ℕ
hex_text [] = []
hex_text (b ∷ bs) = hex_digit (b / 16) ∷ hex_digit (b % 16) ∷ hex_text bs

unfoldable pub compute_blob_id : Primitives → List ℕ → List ℕ → List ℕ
compute_blob_id p blob_id_salt plaintext = hex_text (p.sha256 (blob_id_salt ++ plaintext))
