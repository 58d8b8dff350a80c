-- ===== src/Crypto/KeysetRoundTrip.antt =====
-- A keyset file decrypts, under its password, to the master keys it was built from.
use arq_backup_tui.Common.{
  ℕ, ◌≡◌, refl, sym, ap, subst, ◌∙◌, Option, none, some, List, ◌++◌, arith, length, length-drop,
  take, drop, list_eq_refl, ◌==◌, ==_iff,
}
use arq_backup_tui.Common.Slices.{slice, take_all, slice_next, drop_next}
use arq_backup_tui.Common.Result.{ok, bind_returned, if_returned}
use arq_backup_tui.Wire.Bytes.{
  big_endian, from_big_endian, length-big_endian, from_big_endian-big_endian,
}
use arq_backup_tui.Crypto.Primitives.{
  Primitives, PrimitiveLaws, CryptoError, wrong_field_size, wrong_iv_size, aes_256_cbc_encrypt,
  encrypt_returned, decrypt_of_encrypt,
}
use arq_backup_tui.Crypto.Object.{given_or_drawn}
use arq_backup_tui.Crypto.Keyset.{
  keyset_magic, Keyset, DrawnKeyset, parse_keyset_storage, derive_keyset_keys, verify_keyset_hmac,
  field_length_at, parse_keyset_plaintext, decrypt_keyset, keyset_plaintext, keyset_file,
  build_encrypted_keyset,
}

-- The three keys have 32 bytes each.
pub record HasKeySizes (keyset : Keyset) : Type 0 where
  pub encryption_key : length keyset.encryption_key ≡ 32
  pub hmac_key : length keyset.hmac_key ≡ 32
  pub blob_id_salt : length keyset.blob_id_salt ≡ 32

module _ (keyset : Keyset) (sizes : HasKeySizes keyset) where
  abbrev text : List ℕ
  text = keyset_plaintext keyset

  drop_0 :
      drop 0 text
      ≡ big_endian 4 3
        ++ (big_endian 8 32
            ++ (keyset.encryption_key
                ++ (big_endian 8 32
                    ++ (keyset.hmac_key ++ (big_endian 8 32 ++ keyset.blob_id_salt)))))
  unfolding keyset_plaintext
  drop_0 = refl

  drop_4 :
      drop 4 text
      ≡ big_endian 8 32
        ++ (keyset.encryption_key
            ++ (big_endian 8 32 ++ (keyset.hmac_key ++ (big_endian 8 32 ++ keyset.blob_id_salt))))
  drop_4 = drop_next text (big_endian 4 3) _ 0 4 drop_0 (sym (length-big_endian 4 3))

  drop_12 :
      drop 12 text
      ≡ keyset.encryption_key
        ++ (big_endian 8 32 ++ (keyset.hmac_key ++ (big_endian 8 32 ++ keyset.blob_id_salt)))
  drop_12 = drop_next text (big_endian 8 32) _ 4 8 drop_4 (sym (length-big_endian 8 32))

  drop_44 :
      drop 44 text
      ≡ big_endian 8 32 ++ (keyset.hmac_key ++ (big_endian 8 32 ++ keyset.blob_id_salt))
  drop_44 = drop_next text keyset.encryption_key _ 12 32 drop_12 (sym sizes.encryption_key)

  drop_52 : drop 52 text ≡ keyset.hmac_key ++ (big_endian 8 32 ++ keyset.blob_id_salt)
  drop_52 = drop_next text (big_endian 8 32) _ 44 8 drop_44 (sym (length-big_endian 8 32))

  drop_84 : drop 84 text ≡ big_endian 8 32 ++ keyset.blob_id_salt
  drop_84 = drop_next text keyset.hmac_key _ 52 32 drop_52 (sym sizes.hmac_key)

  drop_92 : drop 92 text ≡ keyset.blob_id_salt
  drop_92 = drop_next text (big_endian 8 32) _ 84 8 drop_84 (sym (length-big_endian 8 32))

  length_text : length text ≡ 124
  length_text =
      let a = length-drop 92 text in let b = ap length drop_92 in omega (arith, sizes.blob_id_salt)

  read_length_at :
      (o : ℕ) (rest : List ℕ) → drop o text ≡ big_endian 8 32 ++ rest → field_length_at text o ≡ 32
  read_length_at o rest e =
      ap (from_big_endian 0)
        (slice_next text (big_endian 8 32) rest o 8 e (sym (length-big_endian 8 32)))
      ∙ from_big_endian-big_endian 8 32 (omega arith)

  read_version : from_big_endian 0 (slice text 0 4) ≡ 3
  read_version =
      ap (from_big_endian 0)
        (slice_next text (big_endian 4 3) _ 0 4 drop_0 (sym (length-big_endian 4 3)))
      ∙ from_big_endian-big_endian 4 3 (omega arith)

  parse_of_plaintext : parse_keyset_plaintext text ≡ ok keyset
  unfolding parse_keyset_plaintext
  parse_of_plaintext = rw length_text (
      rw read_version (
        rw (read_length_at 4 _ drop_4) (
          rw (read_length_at 44 _ drop_44) (
            rw (read_length_at 84 _ drop_84) (
              rw (slice_next text keyset.encryption_key _ 12 32 drop_12 (sym sizes.encryption_key))
                (rw (slice_next text keyset.hmac_key _ 52 32 drop_52 (sym sizes.hmac_key)) (
                  rw drop_92 (
                    rw (take_all 32 keyset.blob_id_salt (omega (arith, sizes.blob_id_salt)))
                      refl))))))))

module _ (p : Primitives) (laws : PrimitiveLaws p) where
  module _ (mac_key salt iv ct : List ℕ) (salt_size : length salt ≡ 8) (iv_size : length iv ≡ 16)
      (ct_size : length ct ≡ 128) where
    abbrev mac : List ℕ
    mac = p.hmac mac_key (iv ++ ct)

    abbrev file : List ℕ
    file = keyset_file p mac_key salt iv ct

    drop_25 : drop 25 file ≡ salt ++ (mac ++ (iv ++ ct))
    unfolding keyset_file
    drop_25 = refl

    drop_33 : drop 33 file ≡ mac ++ (iv ++ ct)
    drop_33 = drop_next file salt _ 25 8 drop_25 (sym salt_size)

    drop_65 : drop 65 file ≡ iv ++ ct
    drop_65 = drop_next file mac _ 33 32 drop_33 (sym (laws.length-hmac mac_key (iv ++ ct)))

    drop_81 : drop 81 file ≡ ct
    drop_81 = drop_next file iv ct 65 16 drop_65 (sym iv_size)

    length_file : length file ≡ 209
    length_file = let a = length-drop 81 file in let b = ap length drop_81 in omega (arith, ct_size)

    stored_magic : take 25 file ≡ keyset_magic
    unfolding keyset_file
    stored_magic = refl

    parse_of_file :
        parse_keyset_storage file
        ≡ ok record { salt = salt; hmac_stored = mac; iv = iv; ciphertext = ct }
    unfolding parse_keyset_storage
    parse_of_file = rw length_file (
        rw stored_magic (
          rw (list_eq_refl keyset_magic) (
            rw drop_81 (
              rw ct_size (
                rw (slice_next file salt _ 25 8 drop_25 (sym salt_size)) (
                  rw
                    (slice_next file mac _ 33 32 drop_33
                      (sym (laws.length-hmac mac_key (iv ++ ct))))
                    (rw (slice_next file iv ct 65 16 drop_65 (sym iv_size)) refl)))))))

  decrypt_of_file :
      (password : List ℕ) (keyset : Keyset) (salt iv ct : List ℕ) (keys : List ℕ × List ℕ)
      → HasKeySizes keyset
      → length salt ≡ 8
      → derive_keyset_keys p password salt ≡ ok keys
      → aes_256_cbc_encrypt p keys.0 iv (keyset_plaintext keyset) ≡ ok ct
      → decrypt_keyset p (keyset_file p keys.1 salt iv ct) password ≡ ok keyset
  unfolding decrypt_keyset verify_keyset_hmac
  decrypt_of_file password keyset salt iv ct keys sizes s d e =
      let (k, i, out) = encrypt_returned p keys.0 iv (keyset_plaintext keyset) ct e in
      let padded : length ct ≡ 128 = omega (
        arith,
        laws.length-encrypt keys.0 iv (keyset_plaintext keyset) ct out,
        length_text keyset sizes,
      ) in
      rw (parse_of_file keys.1 salt iv ct s i padded) (
        rw d (
          rw (list_eq_refl (p.hmac keys.1 (iv ++ ct))) (
            rw (decrypt_of_encrypt p keys.0 iv (keyset_plaintext keyset) ct laws e)
              (parse_of_plaintext keyset sizes))))

  given_or_drawn_size :
      (size : ℕ) (raised : CryptoError) (given : Option (List ℕ)) (drawn used : List ℕ)
      → length drawn ≡ size
      → given_or_drawn size raised given drawn ≡ ok used
      → length used ≡ size
  unfolding given_or_drawn
  given_or_drawn_size size raised none drawn used l h = cc
  given_or_drawn_size size raised (some given) drawn used l h = ground arith

  parts_of_build :
      (password : List ℕ) (keyset : Keyset) (salt iv : Option (List ℕ)) (drawn : DrawnKeyset)
      (file : List ℕ)
      → length drawn.salt ≡ 8
      → build_encrypted_keyset p password keyset salt iv drawn ≡ ok file
      → HasKeySizes keyset
        × ((used_salt : List ℕ) × (used_iv : List ℕ) × (keys : List ℕ × List ℕ) × (ct : List ℕ)
            × (length used_salt ≡ 8)
            × (derive_keyset_keys p password used_salt ≡ ok keys)
            × (aes_256_cbc_encrypt p keys.0 used_iv (keyset_plaintext keyset) ≡ ok ct)
            × (file ≡ keyset_file p keys.1 used_salt used_iv ct))
  unfolding build_encrypted_keyset
  parts_of_build password keyset salt iv drawn file l h =
      let (t1, h1) = if_returned (length keyset.encryption_key == 32) _ _ file h in
      let (t2, h2) = if_returned (length keyset.hmac_key == 32) _ _ file h1 in
      let (t3, h3) = if_returned (length keyset.blob_id_salt == 32) _ _ file h2 in
      let (s, e1, h4) =
        bind_returned (given_or_drawn 8 wrong_field_size salt drawn.salt) _ file h3 in
      let (v, e2, h5) = bind_returned (given_or_drawn 16 wrong_iv_size iv drawn.iv) _ file h4 in
      let (keys, e3, h6) = bind_returned (derive_keyset_keys p password s) _ file h5 in
      let (ct, e4, h7) =
        bind_returned (aes_256_cbc_encrypt p keys.0 v (keyset_plaintext keyset)) _ file h6 in
      (
        record {
          encryption_key = (==_iff (length keyset.encryption_key) 32).0 t1;
          hmac_key = (==_iff (length keyset.hmac_key) 32).0 t2;
          blob_id_salt = (==_iff (length keyset.blob_id_salt) 32).0 t3;
        },
        (s, v, keys, ct, given_or_drawn_size 8 wrong_field_size salt drawn.salt s l e1, e3, e4, cc),
      )

  -- What build_encrypted_keyset returns, decrypt_keyset opens under the same password as the same three
  -- keys, whatever salt and IV were given or drawn, where a drawn salt has 8 bytes.
  pub decrypt_keyset-build_encrypted_keyset :
      (password : List ℕ) (keyset : Keyset) (salt iv : Option (List ℕ)) (drawn : DrawnKeyset)
      (file : List ℕ)
      → length drawn.salt ≡ 8
      → build_encrypted_keyset p password keyset salt iv drawn ≡ ok file
      → decrypt_keyset p file password ≡ ok keyset
  decrypt_keyset-build_encrypted_keyset password keyset salt iv drawn file l h =
      let (sizes, (s, v, keys, ct, ls, d, e, same)) =
        parts_of_build password keyset salt iv drawn file l h in
      subst (λ f. decrypt_keyset p f password ≡ ok keyset) (sym same)
        (decrypt_of_file password keyset s v ct keys sizes ls d e)
