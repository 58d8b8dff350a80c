-- ===== src/Crypto/Examples.antt =====
-- The encryption code with a toy cipher: padding in front, and digests of a fixed length.
use arq_backup_tui.Common.{
  ℕ, ◌-◌, ◌≤◌, ◌≡◌, refl, ◌⊎◌, true, false, none, some, List, [], ◌∷◌, ◌++◌, arith, length, list_eq,
  replicate, drop, take,
}
use arq_backup_tui.Common.Slices.{slice}
use arq_backup_tui.Common.Result.{ok}
use arq_backup_tui.Crypto.Primitives.{aes_256_cbc_encrypt, aes_256_cbc_decrypt}
use arq_backup_tui.Crypto.Object.{
  arqo_magic, Drawn, given_or_drawn, seal, encrypt_body, build_encrypted_object,
  decrypt_encrypted_object,
}
use arq_backup_tui.Wire.Types.{Text}
use arq_backup_tui.Wire.Bytes.{big_endian, from_big_endian}
use arq_backup_tui.Wire.Utf8.{encode, encode_char}
use mathlib.Core.List.{flatten}
use arq_backup_tui.Pack.Index.{is_aligned, whole_entry}
use arq_backup_tui.Pack.Objects.{IsObject, aligned_size}
use arq_backup_tui.Pack.Decode.{decode_pack}
use arq_backup_tui.Pack.Decoded.{decode_pack-flatten}
use arq_backup_tui.Pack.Dict.{Dict, get, put}
use arq_backup_tui.Pack.Builder.{codes}
use arq_backup_tui.Crypto.Toy.{toy, toy_laws, key_a, key_b, keyset, old_password, file_of, old_file}
use arq_backup_tui.Crypto.Keyset.{
  Keyset, DrawnKeyset, decrypt_keyset, derive_keyset_keys, parse_keyset_storage,
  parse_keyset_plaintext, verify_keyset_hmac, keyset_plaintext, keyset_file, build_encrypted_keyset,
  rotate_keyset_password,
}
use arq_backup_tui.Crypto.KeysetRoundTrip.{decrypt_keyset-build_encrypted_keyset}
use arq_backup_tui.Crypto.Rotation.{
  keyset_path, archive_path, read_all, write_files, rotation_writes, rotated,
  rotate_keyset_password_on_disk,
}
use arq_backup_tui.Crypto.RotationKeeps.{Survives, rotate_keyset_password_on_disk-Survives}
use arq_backup_tui.Crypto.Object.{verify_encrypted_object_hmac}
use arq_backup_tui.Crypto.Multi.{
  one_object, positions_from, find_arqo_positions, verify_multi_object_arqos,
  verify_multi_object_arqos-single,
}
use arq_backup_tui.Crypto.ObjectRoundTrip.{
  decrypt_encrypted_object-build_encrypted_object, authentic,
}

abbrev drawn_object : Drawn
drawn_object = record {
  session_key = replicate 32 7;
  data_iv = replicate 16 8;
  master_iv = replicate 16 9;
}

abbrev sample : List ℕ
sample = 10 ∷ 20 ∷ 30 ∷ []

abbrev sealed_sample : List ℕ
sealed_sample =
    arqo_magic
    ++ (replicate 32 96
        ++ (replicate 16 9
            ++ ((replicate 16 16 ++ (replicate 16 8 ++ replicate 32 7))
                ++ (replicate 13 13 ++ sample))))

build_sample :
    build_encrypted_object toy sample key_a key_b none none none drawn_object ≡ ok sealed_sample
unfolding build_encrypted_object given_or_drawn encrypt_body seal aes_256_cbc_encrypt
build_sample = refl

decrypt_encrypted_object-build_encrypted_object_example :
    decrypt_encrypted_object toy sealed_sample key_a key_b false ≡ ok sample
decrypt_encrypted_object-build_encrypted_object_example =
    decrypt_encrypted_object-build_encrypted_object toy toy_laws sample key_a key_b none none none
      drawn_object sealed_sample false build_sample

decrypt_sample : decrypt_encrypted_object toy sealed_sample key_a key_b false ≡ ok sample
decrypt_sample =
    decrypt_encrypted_object-build_encrypted_object toy toy_laws sample key_a key_b none none none
      drawn_object sealed_sample false build_sample

authentic_example :
    (116 ≤ length sealed_sample)
    × (take 4 sealed_sample ≡ arqo_magic)
    × (toy.hmac key_b (drop 36 sealed_sample) ≡ slice sealed_sample 4 32)
authentic_example = authentic toy sealed_sample key_a key_b sample decrypt_sample

abbrev drawn_keyset : DrawnKeyset
drawn_keyset = record { salt = replicate 8 4; iv = replicate 16 5 }

abbrev new_password : List ℕ
new_password = 0xe9 ∷ 0x31 ∷ []

abbrev new_file : List ℕ
new_file = file_of (replicate 8 4) (replicate 16 5)

build_keyset :
    build_encrypted_keyset toy old_password keyset
      (some (replicate 8 1))
      (some (replicate 16 2))
      drawn_keyset
    ≡ ok old_file
unfolding build_encrypted_keyset given_or_drawn derive_keyset_keys aes_256_cbc_encrypt keyset_file
    keyset_plaintext encode big_endian
build_keyset = refl

decrypt_keyset-build_encrypted_keyset_example : decrypt_keyset toy old_file old_password ≡ ok keyset
decrypt_keyset-build_encrypted_keyset_example =
    decrypt_keyset-build_encrypted_keyset toy toy_laws old_password keyset (some (replicate 8 1))
      (some (replicate 16 2)) drawn_keyset old_file refl build_keyset

abbrev uuid : Text
uuid = codes "A0"

abbrev disk : Dict (List ℕ)
disk = (keyset_path uuid, old_file) ∷ []

abbrev rotated_disk : Dict (List ℕ)
rotated_disk = (archive_path uuid (codes "1779580800"), old_file) ∷ disk

rotate_disk :
    rotate_keyset_password_on_disk toy disk uuid old_password new_password true
      (codes "1779580800")
      drawn_keyset
      1
    ≡ ok (rotated_disk, new_file)
unfolding rotate_keyset_password_on_disk rotated read_all rotate_keyset_password decrypt_keyset
    parse_keyset_storage derive_keyset_keys verify_keyset_hmac parse_keyset_plaintext
    build_encrypted_keyset given_or_drawn aes_256_cbc_encrypt aes_256_cbc_decrypt keyset_file
    keyset_plaintext encode encode_char big_endian from_big_endian write_files rotation_writes get
    put keyset_path archive_path list_eq
rotate_disk = refl

rotate_keyset_password_on_disk-Survives_example :
    (old_blob : List ℕ) × (found : Keyset) × (decrypt_keyset toy old_blob old_password ≡ ok found)
    × (decrypt_keyset toy new_file new_password ≡ ok found)
    × (get disk (keyset_path uuid) ≡ some old_blob)
    × Survives uuid (codes "1779580800") true old_blob new_file rotated_disk
    × ((1 ≤ 1) ⊎ (get rotated_disk (keyset_path uuid) ≡ some new_file))
rotate_keyset_password_on_disk-Survives_example =
    rotate_keyset_password_on_disk-Survives toy toy_laws disk uuid old_password new_password true
      (codes "1779580800") drawn_keyset 1 rotated_disk new_file refl rotate_disk

sealed-IsObject : IsObject sealed_sample
sealed-IsObject =
    let size : length sealed_sample ≡ 132 = refl in
    record {
      magic = refl;
      size = unfold is_aligned in refl;
      no_inner = λ i below fits. let (a, b) = aligned_size (i - 116) fits in absurd (omega arith);
    }

decode_pack-flatten_example :
    decode_pack toy (flatten (sealed_sample ∷ sealed_sample ∷ [])) key_a key_b true ≡ record {
      yielded = (whole_entry 0 132, sample) ∷ (whole_entry 132 132, sample) ∷ [];
      raised = none;
    }
decode_pack-flatten_example =
    decode_pack-flatten toy toy_laws key_a key_b
      ((sealed_sample, sample) ∷ (sealed_sample, sample) ∷ []) true
      ((drawn_object, build_sample), ((drawn_object, build_sample), tt))
      (sealed-IsObject, (sealed-IsObject, tt))

one_position : find_arqo_positions sealed_sample ≡ 0 ∷ []
unfolding find_arqo_positions positions_from list_eq
one_position = refl

verify_multi_object_arqos-single_example :
    verify_multi_object_arqos toy sealed_sample key_b
    ≡ one_object (verify_encrypted_object_hmac toy sealed_sample key_b).0
verify_multi_object_arqos-single_example =
    verify_multi_object_arqos-single toy sealed_sample key_b one_position refl long_enough
  where
    long_enough : 116 ≤ 132
    long_enough = omega arith
