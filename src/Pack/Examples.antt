-- ===== src/Pack/Examples.antt =====
-- The theorems on the pack builder at a run that dedups a blob and fills two packs.
use arq_backup_tui.Common.{ℕ, ◌≡◌, refl, some, List, [], ◌∷◌, arith, replicate}
use arq_backup_tui.Wire.Types.{Text}
use arq_backup_tui.Pack.Dict.{get}
use arq_backup_tui.Pack.Builder.{codes, init, add, add_all, close, read_range}
use arq_backup_tui.Pack.Stored.{UuidLaws}
use arq_backup_tui.Pack.ReadBack.{first_blobs, remember, read_back}
-- Texts of 36 characters, a new one at each draw.
use arq_backup_tui.Common.{length, ◌++◌, ◌≤◌, ◌⊎◌, list_eq, true}
use arq_backup_tui.Common.Result.{ok}
use arq_backup_tui.Crypto.Object.{arqo_magic}
use arq_backup_tui.Pack.Index.{
  pack_summary, summary_of, payload_of, last_truncated, reconstruct_index, index_loop, find_end,
  find_magic, find_from, is_aligned,
}
use mathlib.Core.List.{flatten}
use arq_backup_tui.Common.{length-replicate, ap, subst, sym, ◌+◌, ◌-◌}
use arq_backup_tui.Pack.Index.{whole_entry}
use arq_backup_tui.Pack.Objects.{IsObject, aligned_size}
use arq_backup_tui.Pack.Recovered.{reconstruct_index-flatten}
use arq_backup_tui.Pack.Tiles.{IsIndex, reconstruct_index-IsIndex}
use arq_backup_tui.Pack.Summary.{pack_summary-accounts}

abbrev numbered : ℕ → Text
numbered n = n ∷ replicate 35 b'A'

numbered_laws : UuidLaws numbered
numbered_laws = record { distinct = λ i j e. ground arith; length_36 = λ i. refl }

abbrev before : List (Text × List ℕ)
before = (codes "a", 1 ∷ 2 ∷ 3 ∷ []) ∷ (codes "b", 4 ∷ 5 ∷ []) ∷ []

abbrev after : List (Text × List ℕ)
after = (codes "c", 6 ∷ 7 ∷ 8 ∷ []) ∷ []

read_back_example :
    (first : List ℕ) × (get (remember (first_blobs [] before) (codes "a") (9 ∷ [])) (codes "a")
      ≡ some first)
    × ((add numbered
          (add_all numbered (init numbered (codes "CU") (codes "blobpacks") 4 2) before)
          (codes "a")
          (9 ∷ [])).1.blob_identifier
        ≡ codes "a")
    × (read_range
          (close numbered (
            add_all numbered
              (add numbered
                (add_all numbered (init numbered (codes "CU") (codes "blobpacks") 4 2) before)
                (codes "a")
                (9 ∷ [])).0
              after)).files
          (add numbered
            (add_all numbered (init numbered (codes "CU") (codes "blobpacks") 4 2) before)
            (codes "a")
            (9 ∷ [])).1.relative_path
          (add numbered
            (add_all numbered (init numbered (codes "CU") (codes "blobpacks") 4 2) before)
            (codes "a")
            (9 ∷ [])).1.offset
          (add numbered
            (add_all numbered (init numbered (codes "CU") (codes "blobpacks") 4 2) before)
            (codes "a")
            (9 ∷ [])).1.length
        ≡ some first)
read_back_example =
    read_back numbered numbered_laws (codes "CU") (codes "blobpacks") 4 2 before (codes "a")
      (9 ∷ []) after

-- One whole entry, and the first 20 bytes of another.
abbrev torn_pack : List ℕ
torn_pack = arqo_magic ++ (replicate 128 0 ++ (arqo_magic ++ replicate 16 1))

reconstruct_index-IsIndex_example : IsIndex torn_pack (reconstruct_index torn_pack)
reconstruct_index-IsIndex_example = reconstruct_index-IsIndex torn_pack

torn_pack_summary :
    pack_summary torn_pack
    ≡ ok record { total_size = 152; entry_count = 2; payload_bytes = 132; truncated_tail = true }
unfolding pack_summary summary_of payload_of last_truncated reconstruct_index index_loop find_end
    find_magic find_from is_aligned list_eq
torn_pack_summary = refl

pack_summary-accounts_example :
    (152 ≡ length torn_pack) × (132 ≤ length torn_pack) × ((true ≡ true) ⊎ (132 ≡ length torn_pack))
pack_summary-accounts_example =
    pack_summary-accounts torn_pack
      record { total_size = 152; entry_count = 2; payload_bytes = 132; truncated_tail = true }
      torn_pack_summary

abbrev short_object : ℕ → List ℕ
short_object fill = arqo_magic ++ replicate 128 fill

short-IsObject : (fill : ℕ) → IsObject (short_object fill)
short-IsObject fill =
    let size : length (short_object fill) ≡ 132 = ap (λ n. 4 + n) (length-replicate 128 fill) in
    record {
      magic = refl;
      size = subst (λ n. is_aligned (n - 116) ≡ true) (sym size) (unfold is_aligned in refl);
      no_inner = λ i below fits. let (a, b) = aligned_size (i - 116) fits in absurd (omega arith);
    }

reconstruct_index-flatten_example :
    reconstruct_index (flatten (short_object 0 ∷ short_object 1 ∷ []))
    ≡ ok (whole_entry 0 132 ∷ whole_entry 132 132 ∷ [])
reconstruct_index-flatten_example =
    reconstruct_index-flatten (short_object 0 ∷ short_object 1 ∷ [])
      (short-IsObject 0, (short-IsObject 1, tt))
