-- ===== src/Crypto/Toy.antt =====
-- A toy cipher for the examples: padding in front, and digests of a fixed length; with a keyset file.
use arq_backup_tui.Common.{
  ℕ, zero, suc, ◌+◌, ◌-◌, ◌*◌, ◌/◌, ◌%◌, ◌≤◌, ◌≡◌, sym, ap, subst, some, List, [], ◌∷◌, ◌++◌, arith,
  length, length-append, length-replicate, replicate, drop,
}
use arq_backup_tui.Common.Slices.{drop-append_length}
use arq_backup_tui.Crypto.Primitives.{Primitives, PrimitiveLaws}
use arq_backup_tui.Crypto.Keyset.{keyset_magic, Keyset, keyset_plaintext}

abbrev pub pad_size : List ℕ → ℕ
pad_size plaintext = 16 - length plaintext % 16

abbrev pub drop_pad : List ℕ → List ℕ
drop_pad [] = []
drop_pad (b ∷ bs) = drop b (b ∷ bs)

abbrev pub toy : Primitives
toy = record {
  encrypt =
      λ key iv plaintext. some (replicate (pad_size plaintext) (pad_size plaintext) ++ plaintext);
  decrypt = λ key iv ciphertext. some (drop_pad ciphertext);
  hmac = λ key message. replicate 32 (length message % 256);
  pbkdf2 = λ password salt. replicate 64 (length password % 256);
  sha256 = λ message. replicate 32 (length message % 256);
}

drop_padded : (n : ℕ) (xs : List ℕ) → 1 ≤ n → drop_pad (replicate n n ++ xs) ≡ xs
drop_padded zero xs h = absurd (omega arith)
drop_padded (suc n) xs h =
    drop-append_length (replicate n (suc n)) xs n (sym (length-replicate n (suc n)))

decrypt_padded :
    (plaintext out : List ℕ)
    → some (replicate (pad_size plaintext) (pad_size plaintext) ++ plaintext) ≡ some out
    → drop_pad out ≡ plaintext
decrypt_padded plaintext out e =
    let same : replicate (pad_size plaintext) (pad_size plaintext) ++ plaintext ≡ out = cc in
    subst (λ o. drop_pad o ≡ plaintext) same
      (drop_padded (pad_size plaintext) plaintext (omega arith))

length_padded :
    (plaintext out : List ℕ)
    → some (replicate (pad_size plaintext) (pad_size plaintext) ++ plaintext) ≡ some out
    → length out ≡ (length plaintext / 16 + 1) * 16
length_padded plaintext out e =
    let l = length-append (replicate (pad_size plaintext) (pad_size plaintext)) plaintext in
    let r = length-replicate (pad_size plaintext) (pad_size plaintext) in
    let same : replicate (pad_size plaintext) (pad_size plaintext) ++ plaintext ≡ out = cc in
    subst (λ o. length o ≡ (length plaintext / 16 + 1) * 16) same (omega arith)

pub toy_laws : PrimitiveLaws toy
toy_laws = record {
  decrypt-encrypt = λ key iv plaintext out e. ap some (decrypt_padded plaintext out e);
  length-encrypt = λ key iv plaintext out e. length_padded plaintext out e;
  length-hmac = λ key message. length-replicate 32 (length message % 256);
  length-pbkdf2 = λ password salt. length-replicate 64 (length password % 256);
}

abbrev pub key_a : List ℕ
key_a = replicate 32 1

abbrev pub key_b : List ℕ
key_b = replicate 32 2

abbrev pub keyset : Keyset
keyset = record { encryption_key = key_a; hmac_key = key_b; blob_id_salt = replicate 32 3 }

abbrev pub old_password : List ℕ
old_password = 0x6f ∷ 0x6c ∷ 0x64 ∷ []

abbrev pub file_of : List ℕ → List ℕ → List ℕ
file_of salt iv =
    let body = iv ++ (replicate 4 4 ++ keyset_plaintext keyset) in
    keyset_magic ++ (salt ++ (replicate 32 144 ++ body))

abbrev pub old_file : List ℕ
old_file = file_of (replicate 8 1) (replicate 16 2)
