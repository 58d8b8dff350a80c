-- ===== src/Pack/Tiles.antt =====
-- The entries that `reconstruct_index` finds tile the pack.
use arq_backup_tui.Common.{
  ℕ, zero, suc, ◌+◌, ◌-◌, ◌%◌, ◌≤◌, ◌<◌, ◌≡◌, ◌≢◌, refl, sym, subst, ◌⊎◌, Bool, true, false,
  Bool-cases, Option-cases, Option, none, some, List, [], ◌∷◌, cons_some, arith, length,
  length-drop, take, drop, ltb, list_eq, list_eq_iff, ◌==◌, inl, inr,
}
use arq_backup_tui.Common.Result.{Result, ok, err}
use arq_backup_tui.Crypto.Object.{arqo_magic}
use arq_backup_tui.Pack.Index.{
  PackEntry, IndexError, out_of_fuel, no_magic, late_magic, find_from, find_magic, is_aligned,
  find_end, torn_entry, whole_entry, index_loop, or_out_of_fuel, reconstruct_index,
}

-- An entry with a header and whole blocks behind it, or a torn one, after which nothing comes.
abbrev pub HasShape : PackEntry → List PackEntry → Type 0
HasShape e es =
    ((e.truncated ≡ false) × (132 ≤ e.length) × ((e.length - 116) % 16 ≡ 0))
    ⊎ ((e.truncated ≡ true) × (es ≡ []))

-- Each entry is not empty and begins where the one before it ends; the last ends with the pack.
abbrev pub Tiles : ℕ → ℕ → List PackEntry → Type 0
Tiles total start [] = start ≡ total
Tiles total start (e ∷ es) =
    (e.offset ≡ start) × (0 < e.length) × HasShape e es × Tiles total (start + e.length) es

abbrev TilesFrom : ℕ → ℕ → Option (List PackEntry) → Type 0
TilesFrom total start none = ⊥
TilesFrom total start (some entries) = Tiles total start entries

find_from_bounds :
    (bs : List ℕ) (pos c : ℕ) → find_from bs pos ≡ some c → (pos ≤ c) × (c < pos + length bs)
unfolding find_from
find_from_bounds [] pos c h = cc
find_from_bounds (b ∷ bs) pos c h = ground (arith, find_from_bounds bs (pos + 1) c)

pub find_magic_bounds :
    (pack : List ℕ) (start c : ℕ) → find_magic pack start ≡ some c → (start ≤ c) × (c < length pack)
unfolding find_magic
find_magic_bounds pack start c h =
    omega (arith, find_from_bounds (drop start pack) start c h, length-drop start pack)

-- The fuel is enough: a search goes on behind the magic that it passed over.
find_end_lem :
    (pack : List ℕ) (offset fuel search_from : ℕ)
    → offset < search_from
    → search_from ≤ length pack
    → length pack < fuel + search_from
    → (stop : ℕ) × (find_end pack offset fuel search_from ≡ some stop)
      × (offset < stop)
      × (stop ≤ length pack)
      × ((stop ≡ length pack) ⊎ (is_aligned (stop - offset - 116) ≡ true))
unfolding find_end
find_end_lem pack offset zero search_from h l f = absurd (omega arith)
find_end_lem pack offset (suc fuel) search_from h l f =
    elim (Option-cases (find_magic pack search_from)) [
      | inl missing ↦ rw (missing, find_end) (length pack, refl, omega arith, omega arith, inl refl)
      | inr (cand, found) ↦
          let (lo, hi) = find_magic_bounds pack search_from cand found in
          let (stop, e, a, b, c) =
            find_end_lem pack offset fuel (cand + 1) (omega arith) (omega arith) (omega arith) in
          rw (found, find_end)
            (elim (Bool-cases (is_aligned (cand - offset - 116))) [
              | inl fits ↦ rw fits (cand, refl, omega arith, omega arith, inr fits)
              | inr off ↦ rw off (stop, e, a, b, c)
            ])
    ]

whole_tiles :
    (total start stop : ℕ) (rest : Option (List PackEntry))
    → start < stop
    → is_aligned (stop - start - 116) ≡ true
    → TilesFrom total stop rest
    → TilesFrom total start (cons_some (whole_entry start (stop - start)) rest)
unfolding is_aligned
whole_tiles total start stop none l a t = elim t [ ]
whole_tiles total start stop (some es) l a t =
    let e : start + (stop - start) ≡ stop = omega arith in
    (
      refl,
      omega arith,
      inl (refl, ground arith, ground arith),
      subst (λ k. Tiles total k es) (sym e) t,
    )

torn_tiles :
    (total start : ℕ)
    → start < total
    → TilesFrom total start (some (torn_entry start (total - start) ∷ []))
torn_tiles total start l = (refl, omega arith, inr (refl, refl), omega arith)

at_end : (stop total : ℕ) (b : Bool) → (stop ≡ total) ⊎ (b ≡ true) → b ≡ false → stop ≡ total
at_end stop total b (inl e) h = e
at_end stop total b (inr e) h = cc

index_loop-Tiles :
    (pack : List ℕ) (fuel offset : ℕ)
    → offset ≤ length pack
    → length pack < fuel + offset
    → TilesFrom (length pack) offset (index_loop pack fuel offset)
unfolding index_loop
index_loop-Tiles pack zero offset l f = absurd (omega arith)
index_loop-Tiles pack (suc fuel) offset l f = elim (Bool-cases (ltb offset (length pack))) [
  | inr done ↦ rw (done, index_loop) (ground arith)
  | inl more ↦
      rw (more, index_loop)
        (elim (Bool-cases (ltb (length pack) (offset + 116))) [
          | inl short ↦ rw short (torn_tiles (length pack) offset (ground arith))
          | inr long ↦
              let (stop, e, a, b, c) =
                find_end_lem pack offset (length pack) (offset + 1) (omega arith) (ground arith)
                  (omega arith) in
              rw long (
                rw e (elim (Bool-cases (is_aligned (stop - offset - 116))) [
                  | inl fits ↦ rw fits (
                      whole_tiles (length pack) offset stop (index_loop pack fuel stop) a fits
                        (index_loop-Tiles pack fuel stop b (omega arith)))
                  | inr torn ↦ rw torn (
                      subst
                        (λ k.
                          TilesFrom (length pack) offset
                            (some (torn_entry offset (k - offset) ∷ [])))
                        (sym (at_end stop (length pack) (is_aligned (stop - offset - 116)) c torn))
                        (torn_tiles (length pack) offset (ground arith)))
                ]))
        ])
]

abbrev pub IsIndex : List ℕ → Result IndexError (List PackEntry) → Type 0
IsIndex pack (ok entries) = Tiles (length pack) 0 entries
IsIndex pack (err no_magic) = take 4 pack ≢ arqo_magic
IsIndex pack (err (late_magic first)) = (take 4 pack ≢ arqo_magic) × (first < length pack)
IsIndex pack (err out_of_fuel) = ⊥

-- On every pack reconstruct_index ends. It raises only where the pack does not begin with the magic,
-- and names then an offset inside the pack, if any. Else its entries tile the pack: the first begins at
-- 0, each other one where the one before ends, the last ends with the pack, and each has a header and
-- one or more whole blocks, or is the last and marked as truncated.
pub reconstruct_index-IsIndex : (pack : List ℕ) → IsIndex pack (reconstruct_index pack)
unfolding reconstruct_index
reconstruct_index-IsIndex pack = elim (Bool-cases (length pack == 0)) [
  | inl empty ↦ rw empty (ground arith)
  | inr full ↦ rw full (elim (Bool-cases (list_eq (take 4 pack) arqo_magic)) [
    | inl magic ↦ rw magic (
        of_tiles (index_loop pack (length pack + 1) 0)
          (index_loop-Tiles pack (length pack + 1) 0 (omega arith) (omega arith)))
    | inr other ↦ rw other (elim (Option-cases (find_magic pack 0)) [
      | inl missing ↦ rw missing (differs other)
      | inr (first, found) ↦
          let (lo, hi) = find_magic_bounds pack 0 first found in rw found (differs other, hi)
    ])
  ])
]
  where
    of_tiles :
        (o : Option (List PackEntry))
        → TilesFrom (length pack) 0 o
        → IsIndex pack (or_out_of_fuel o)
    of_tiles none t = t
    of_tiles (some entries) t = t

    differs : list_eq (take 4 pack) arqo_magic ≡ false → take 4 pack ≢ arqo_magic
    differs h e = let same = (list_eq_iff (take 4 pack) arqo_magic).1 e in absurd (clash same h)
      where
        clash : {b : Bool} → b ≡ true → b ≡ false → ⊥
        clash p q = cc
