-- ===== src/Pack/Decode.antt =====
-- `decode_pack` of arq_reader/pack.py. A generator is what it yields, and what it then raises, if it does.
use arq_backup_tui.Common.{ℕ, Bool, true, Option, none, some, List, [], ◌∷◌, if◌then◌else◌}
use arq_backup_tui.Common.Slices.{slice}
use arq_backup_tui.Common.Result.{Result, ok, err}
use arq_backup_tui.Crypto.Primitives.{Primitives}
use arq_backup_tui.Crypto.Object.{
  verify_encrypted_object_hmac, DecryptError, decrypt_encrypted_object,
}
use arq_backup_tui.Pack.Index.{PackEntry, IndexError, reconstruct_index}

-- `PackError`, of the index or of an entry at an offset, and `PackTruncated`.
pub data DecodeError : Type 0 where
  index_failed : IndexError → DecodeError
  pack_truncated entry_hmac_mismatch : ℕ → DecodeError
  entry_decrypt_failed : ℕ → DecryptError → DecodeError

pub record Decoded : Type 0 where
  pub yielded : List (PackEntry × List ℕ)
  pub raised : Option DecodeError

abbrev pub stops : DecodeError → Decoded
stops e = record { yielded = []; raised = some e }

abbrev pub yields : PackEntry → List ℕ → Decoded → Decoded
yields entry plaintext later = record {
  yielded = (entry, plaintext) ∷ later.yielded;
  raised = later.raised;
}

abbrev yield_or_stop : PackEntry → Result DecryptError (List ℕ) → Decoded → Decoded
yield_or_stop entry (ok plaintext) later = yields entry plaintext later
yield_or_stop entry (err e) later = stops (entry_decrypt_failed entry.offset e)

unfoldable pub decode_entries :
    Primitives → List ℕ → List ℕ → List ℕ → Bool → List PackEntry → Decoded
decode_entries p pack encryption_key hmac_key skip_truncated [] = record {
  yielded = [];
  raised = none;
}
decode_entries p pack encryption_key hmac_key skip_truncated (entry ∷ entries) =
    let later = decode_entries p pack encryption_key hmac_key skip_truncated entries in
    let arqo = slice pack entry.offset entry.length in
    if entry.truncated
    then (if skip_truncated then later else stops (pack_truncated entry.offset))
    else if (verify_encrypted_object_hmac p arqo hmac_key).0
    then yield_or_stop entry (decrypt_encrypted_object p arqo encryption_key hmac_key true) later
    else stops (entry_hmac_mismatch entry.offset)

unfoldable pub decode_pack : Primitives → List ℕ → List ℕ → List ℕ → Bool → Decoded
decode_pack p pack encryption_key hmac_key skip_truncated = elim (reconstruct_index pack) [
  | ok entries ↦ decode_entries p pack encryption_key hmac_key skip_truncated entries
  | err e ↦ stops (index_failed e)
]
