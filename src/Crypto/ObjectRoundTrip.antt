-- ===== src/Crypto/ObjectRoundTrip.antt =====
-- An encrypted object decrypts to its plaintext, and one that decrypts is authentic.
use arq_backup_tui.Common.{
  ℕ, ◌≤◌, ◌≡◌, refl, sym, ap, ◌∙◌, Bool, true, false, Option, List, [], ◌∷◌, ◌++◌, arith, subst,
  if_ind, ==_iff, length, length-append, take, drop, ltb, list_eq, list_eq_refl, list_eq_iff, ◌==◌,
}
use arq_backup_tui.Common.Slices.{slice, take-append_length, drop-append_length, drop-drop}
use arq_backup_tui.Common.Result.{ok, bind_returned, if_returned, unless_returned}
use arq_backup_tui.Crypto.Primitives.{
  Primitives, PrimitiveLaws, wrong_key_size, wrong_iv_size, aes_256_cbc_encrypt, encrypt_returned,
  decrypt_of_encrypt,
}
use arq_backup_tui.Crypto.Object.{
  arqo_magic, given_or_drawn, Drawn, seal, encrypt_body, build_encrypted_object,
  verify_encrypted_object_hmac, decrypt_payload, decrypt_body, decrypt_encrypted_object,
}

module _ (p : Primitives) (laws : PrimitiveLaws p) where
  module _ (hk miv es ct : List ℕ) (miv_size : length miv ≡ 16) (es_size : length es ≡ 64) where
    drop_36 : drop 36 (seal p hk miv es ct) ≡ miv ++ (es ++ ct)
    unfolding seal
    drop_36 =
        drop-append_length (p.hmac hk (miv ++ (es ++ ct))) (miv ++ (es ++ ct)) 32
          (sym (laws.length-hmac hk (miv ++ (es ++ ct))))

    stored_mac : slice (seal p hk miv es ct) 4 32 ≡ p.hmac hk (miv ++ (es ++ ct))
    unfolding seal
    stored_mac =
        take-append_length (p.hmac hk (miv ++ (es ++ ct))) (miv ++ (es ++ ct)) 32
          (sym (laws.length-hmac hk (miv ++ (es ++ ct))))

    stored_iv : slice (seal p hk miv es ct) 36 16 ≡ miv
    stored_iv = ap (take 16) drop_36 ∙ take-append_length miv (es ++ ct) 16 (sym miv_size)

    drop_52 : drop 52 (seal p hk miv es ct) ≡ es ++ ct
    drop_52 =
        sym (drop-drop 36 16 (seal p hk miv es ct))
        ∙ ap (drop 16) drop_36
        ∙ drop-append_length miv (es ++ ct) 16 (sym miv_size)

    stored_session : slice (seal p hk miv es ct) 52 64 ≡ es
    stored_session = ap (take 64) drop_52 ∙ take-append_length es ct 64 (sym es_size)

    drop_116 : drop 116 (seal p hk miv es ct) ≡ ct
    drop_116 =
        sym (drop-drop 52 64 (seal p hk miv es ct))
        ∙ ap (drop 64) drop_52
        ∙ drop-append_length es ct 64 (sym es_size)

    stored_magic : take 4 (seal p hk miv es ct) ≡ arqo_magic
    unfolding seal
    stored_magic = refl

    seal_long : ltb (length (seal p hk miv es ct)) 116 ≡ false
    unfolding seal
    seal_long =
        let a = length-append (p.hmac hk (miv ++ (es ++ ct))) (miv ++ (es ++ ct)) in
        let b = length-append miv (es ++ ct) in
        let c = length-append es ct in
        let d = laws.length-hmac hk (miv ++ (es ++ ct)) in ground arith

    verified : (verify_encrypted_object_hmac p (seal p hk miv es ct) hk).0 ≡ true
    unfolding verify_encrypted_object_hmac
    verified = rw seal_long (
        rw stored_magic (
          rw (list_eq_refl arqo_magic)
            (rw stored_mac (rw drop_36 (list_eq_refl (p.hmac hk (miv ++ (es ++ ct))))))))

  payload_of_encrypt :
      (plaintext sk div ct : List ℕ)
      → aes_256_cbc_encrypt p sk div plaintext ≡ ok ct
      → decrypt_payload p sk div ct ≡ ok plaintext
  unfolding decrypt_payload
  payload_of_encrypt plaintext sk div [] e =
      let (k, i, out) = encrypt_returned p sk div plaintext [] e in
      absurd (omega (arith, laws.length-encrypt sk div plaintext [] out))
  payload_of_encrypt plaintext sk div (b ∷ ct) e =
      rw (decrypt_of_encrypt p sk div plaintext (b ∷ ct) laws e)

  decrypt_body_sealed :
      (plaintext ek hk sk div miv es ct : List ℕ)
      → aes_256_cbc_encrypt p ek miv (div ++ sk) ≡ ok es
      → aes_256_cbc_encrypt p sk div plaintext ≡ ok ct
      → length es ≡ 64
      → decrypt_body p (seal p hk miv es ct) ek ≡ ok plaintext
  unfolding decrypt_body
  decrypt_body_sealed plaintext ek hk sk div miv es ct e1 e2 l =
      let (k1, i1, o1) = encrypt_returned p ek miv (div ++ sk) es e1 in
      let (k2, i2, o2) = encrypt_returned p sk div plaintext ct e2 in
      let len : length (div ++ sk) ≡ 48 = omega (arith, length-append div sk) in
      rw (stored_iv hk miv es ct i1 l) (
        rw (stored_session hk miv es ct i1 l) (
          rw (drop_116 hk miv es ct i1 l) (
            rw (decrypt_of_encrypt p ek miv (div ++ sk) es laws e1) (
              rw len (
                rw (take-append_length div sk 16 (sym i2)) (
                  rw (drop-append_length div sk 16 (sym i2))
                    (payload_of_encrypt plaintext sk div ct e2)))))))

  decrypt_sealed :
      (plaintext ek hk sk div miv es ct : List ℕ) (skip : Bool)
      → aes_256_cbc_encrypt p ek miv (div ++ sk) ≡ ok es
      → aes_256_cbc_encrypt p sk div plaintext ≡ ok ct
      → length es ≡ 64
      → decrypt_encrypted_object p (seal p hk miv es ct) ek hk skip ≡ ok plaintext
  unfolding decrypt_encrypted_object
  decrypt_sealed plaintext ek hk sk div miv es ct skip e1 e2 l =
      let (k1, i1, o1) = encrypt_returned p ek miv (div ++ sk) es e1 in
      let done = decrypt_body_sealed plaintext ek hk sk div miv es ct e1 e2 l in
      rw (seal_long hk miv es ct i1 l) (
        rw (stored_magic hk miv es ct i1 l) (
          rw (list_eq_refl arqo_magic)
            (rw (verified hk miv es ct i1 l) (if_ind (λ r. r ≡ ok plaintext) skip _ _ done done))))

  sealed_of_build :
      (plaintext ek hk : List ℕ) (session_key data_iv master_iv : Option (List ℕ)) (drawn : Drawn)
      (arqo : List ℕ)
      → build_encrypted_object p plaintext ek hk session_key data_iv master_iv drawn ≡ ok arqo
      → (sk : List ℕ) × (div : List ℕ) × (miv : List ℕ) × (encrypt_body p plaintext ek hk sk div miv
          ≡ ok arqo)
  unfolding build_encrypted_object
  sealed_of_build plaintext ek hk session_key data_iv master_iv drawn arqo h =
      let (t1, h1) = if_returned (length ek == 32) _ _ arqo h in
      let (t2, h2) = if_returned (length hk == 32) _ _ arqo h1 in
      let (sk, s1, h3) =
        bind_returned (given_or_drawn 32 wrong_key_size session_key drawn.session_key) _ arqo h2 in
      let (div, s2, h4) =
        bind_returned (given_or_drawn 16 wrong_iv_size data_iv drawn.data_iv) _ arqo h3 in
      let (miv, s3, h5) =
        bind_returned (given_or_drawn 16 wrong_iv_size master_iv drawn.master_iv) _ arqo h4 in
      (sk, div, miv, h5)

  parts_of_encrypt_body :
      (plaintext ek hk sk div miv arqo : List ℕ)
      → encrypt_body p plaintext ek hk sk div miv ≡ ok arqo
      → (es : List ℕ) × (ct : List ℕ) × (aes_256_cbc_encrypt p ek miv (div ++ sk) ≡ ok es)
        × (aes_256_cbc_encrypt p sk div plaintext ≡ ok ct)
        × (length es ≡ 64)
        × (arqo ≡ seal p hk miv es ct)
  unfolding encrypt_body
  parts_of_encrypt_body plaintext ek hk sk div miv arqo h =
      let (es, e1, h1) = bind_returned (aes_256_cbc_encrypt p ek miv (div ++ sk)) _ arqo h in
      let (t, h2) = if_returned (length es == 64) _ _ arqo h1 in
      let (ct, e2, h3) = bind_returned (aes_256_cbc_encrypt p sk div plaintext) _ arqo h2 in
      (es, ct, e1, e2, (==_iff (length es) 64).0 t, cc)

  -- What build_encrypted_object returns is decrypted, under the same two keys, to the plaintext, with
  -- the HMAC test or without it, whatever session key and IVs were given or drawn.
  pub decrypt_encrypted_object-build_encrypted_object :
      (plaintext ek hk : List ℕ) (session_key data_iv master_iv : Option (List ℕ)) (drawn : Drawn)
      (arqo : List ℕ) (skip : Bool)
      → build_encrypted_object p plaintext ek hk session_key data_iv master_iv drawn ≡ ok arqo
      → decrypt_encrypted_object p arqo ek hk skip ≡ ok plaintext
  decrypt_encrypted_object-build_encrypted_object plaintext ek hk session_key data_iv master_iv
        drawn arqo skip h =
      let (sk, div, miv, b) =
        sealed_of_build plaintext ek hk session_key data_iv master_iv drawn arqo h in
      let (es, ct, e1, e2, l, e) = parts_of_encrypt_body plaintext ek hk sk div miv arqo b in
      subst (λ a. decrypt_encrypted_object p a ek hk skip ≡ ok plaintext) (sym e)
        (decrypt_sealed plaintext ek hk sk div miv es ct skip e1 e2 l)

pub verify_computed :
    (p : Primitives) (arqo hk : List ℕ)
    → ltb (length arqo) 116 ≡ false
    → list_eq (take 4 arqo) arqo_magic ≡ true
    → (verify_encrypted_object_hmac p arqo hk).0
      ≡ list_eq (p.hmac hk (drop 36 arqo)) (slice arqo 4 32)
unfolding verify_encrypted_object_hmac
verify_computed p arqo hk long magic = rw long (rw magic refl)

-- An object that decrypt_encrypted_object decrypts with its HMAC test on has at least the length of a
-- header, the magic, and in its bytes 4 to 36 the HMAC of all bytes from 36 on under the HMAC key.
pub authentic :
    (p : Primitives) (arqo ek hk plaintext : List ℕ)
    → decrypt_encrypted_object p arqo ek hk false ≡ ok plaintext
    → (116 ≤ length arqo)
      × (take 4 arqo ≡ arqo_magic)
      × (p.hmac hk (drop 36 arqo) ≡ slice arqo 4 32)
unfolding decrypt_encrypted_object
authentic p arqo ek hk plaintext h =
    let (long, h1) = unless_returned (ltb (length arqo) 116) _ _ plaintext h in
    let (magic, h2) = if_returned (list_eq (take 4 arqo) arqo_magic) _ _ plaintext h1 in
    let (t, h3) = if_returned (verify_encrypted_object_hmac p arqo hk).0 _ _ plaintext h2 in
    (
      ground arith,
      (list_eq_iff (take 4 arqo) arqo_magic).0 magic,
      (list_eq_iff (p.hmac hk (drop 36 arqo)) (slice arqo 4 32)).0
          (sym (verify_computed p arqo hk long magic) ∙ t),
    )
