-- ===== src/Pack/Index.antt =====
-- arq_reader/pack.py: `_find_magic`, `reconstruct_index`, `pack_summary`.
use arq_backup_tui.Common.{
  ℕ, zero, suc, ◌+◌, ◌-◌, ◌%◌, Bool, true, false, ◌&&◌, Option, none, some, List, [], ◌∷◌,
  cons_some, length, take, drop, ltb, leb, list_eq, ◌==◌, if◌then◌else◌,
}
use arq_backup_tui.Common.Result.{Result, ok, err}
use arq_backup_tui.Crypto.Object.{arqo_magic}

pub record PackEntry : Type 0 where
  pub offset : ℕ
  pub length : ℕ
  pub truncated : Bool

-- The `PackError`s of a pack that does not begin with the magic. `out_of_fuel` is no answer of the
-- program.
pub data IndexError : Type 0 where
  no_magic : IndexError
  late_magic : ℕ → IndexError
  out_of_fuel : IndexError

-- The first magic in what is left of the pack from `pos` on.
unfoldable pub find_from : List ℕ → ℕ → Option ℕ
find_from [] pos = none
find_from (b ∷ bs) pos =
    let rest = find_from bs (pos + 1) in
    if list_eq (take 4 (b ∷ bs)) arqo_magic then some pos else rest

unfoldable pub find_magic : List ℕ → ℕ → Option ℕ
find_magic pack start = find_from (drop start pack) start

-- A body of whole AES blocks, one at least.
unfoldable pub is_aligned : ℕ → Bool
is_aligned body_len = leb 16 body_len && (body_len % 16 == 0)

-- The inner `while True`: the end of the entry at `offset`.
unfoldable pub find_end : List ℕ → ℕ → ℕ → ℕ → Option ℕ
find_end pack offset zero search_from = none
find_end pack offset (suc fuel) search_from = elim (find_magic pack search_from) [
  | none ↦ some (length pack)
  | some cand ↦
      let later = find_end pack offset fuel (cand + 1) in
      if is_aligned (cand - offset - 116) then some cand else later
]

abbrev pub torn_entry : ℕ → ℕ → PackEntry
torn_entry offset size = record { offset = offset; length = size; truncated = true }

abbrev pub whole_entry : ℕ → ℕ → PackEntry
whole_entry offset size = record { offset = offset; length = size; truncated = false }

-- The outer loop.
unfoldable pub index_loop : List ℕ → ℕ → ℕ → Option (List PackEntry)
index_loop pack zero offset = none
index_loop pack (suc fuel) offset = elim (ltb offset (length pack)) [
  | false ↦ some []
  | true ↦ elim (ltb (length pack) (offset + 116)) [
    | true ↦ some (torn_entry offset (length pack - offset) ∷ [])
    | false ↦ elim (find_end pack offset (length pack) (offset + 1)) [
      | none ↦ none
      | some stop ↦ elim (is_aligned (stop - offset - 116)) [
        | true ↦ cons_some (whole_entry offset (stop - offset)) (index_loop pack fuel stop)
        | false ↦ some (torn_entry offset (stop - offset) ∷ [])
      ]
    ]
  ]
]

abbrev pub or_out_of_fuel : Option (List PackEntry) → Result IndexError (List PackEntry)
or_out_of_fuel none = err out_of_fuel
or_out_of_fuel (some entries) = ok entries

unfoldable pub reconstruct_index : List ℕ → Result IndexError (List PackEntry)
reconstruct_index pack =
    if length pack == 0
    then ok []
    else if list_eq (take 4 pack) arqo_magic
    then or_out_of_fuel (index_loop pack (length pack + 1) 0)
    else elim (find_magic pack 0) [ none ↦ err no_magic | some first ↦ err (late_magic first) ]

pub record PackSummary : Type 0 where
  pub total_size : ℕ
  pub entry_count : ℕ
  pub payload_bytes : ℕ
  pub truncated_tail : Bool

unfoldable pub payload_of : List PackEntry → ℕ
payload_of [] = 0
payload_of (e ∷ es) = (if e.truncated then 0 else e.length) + payload_of es

unfoldable pub last_truncated : List PackEntry → Bool
last_truncated [] = false
last_truncated (e ∷ []) = e.truncated
last_truncated (e ∷ d ∷ es) = last_truncated (d ∷ es)

unfoldable pub summary_of : List ℕ → List PackEntry → PackSummary
summary_of pack entries = record {
  total_size = length pack;
  entry_count = length entries;
  payload_bytes = payload_of entries;
  truncated_tail = last_truncated entries;
}

unfoldable pub pack_summary : List ℕ → Result IndexError PackSummary
pack_summary pack = elim (reconstruct_index pack) [
  | ok entries ↦ ok (summary_of pack entries)
  | err raised ↦ err raised
]
