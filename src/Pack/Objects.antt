-- ===== src/Pack/Objects.antt =====
-- `reconstruct_index` on a pack of encrypted objects back to back.
use arq_backup_tui.Common.{
  ℕ, zero, suc, ◌+◌, ◌-◌, ◌%◌, ◌≤◌, ◌<◌, ◌≡◌, ◌≢◌, refl, sym, ap, subst, ◌∙◌, ◌⊎◌, true, false,
  Bool-cases, Option-cases, none, some, List, [], ◌++◌, arith, length, length-append, length-drop,
  take, drop, ltb, inl, inr,
}
use arq_backup_tui.Common.Slices.{drop-drop, take-append_le, drop-append_le, drop-append_length}
use arq_backup_tui.Crypto.Object.{arqo_magic}
use arq_backup_tui.Pack.Tiles.{find_magic_bounds}
use arq_backup_tui.Pack.Magic.{magic_none, magic_first}
use arq_backup_tui.Pack.Index.{find_magic, is_aligned, find_end}

-- An object with a header and whole blocks behind it, and no magic inside at a place where its part up to
-- there would have that shape too.
pub record IsObject (o : List ℕ) : Type 0 where
  pub magic : take 4 o ≡ arqo_magic
  pub size : is_aligned (length o - 116) ≡ true
  pub no_inner :
      (i : ℕ) → i < length o → is_aligned (i - 116) ≡ true → take 4 (drop i o) ≢ arqo_magic

-- What may follow an object: nothing, or the next one.
abbrev pub Follows : List ℕ → Type 0
Follows rest = (rest ≡ []) ⊎ (take 4 rest ≡ arqo_magic)

pub aligned_size : (n : ℕ) → is_aligned n ≡ true → (16 ≤ n) × (n % 16 ≡ 0)
unfolding is_aligned
aligned_size n h = (ground arith, ground arith)

module _ (pack o rest : List ℕ) (off : ℕ) (here : drop off pack ≡ o ++ rest) (object : IsObject o)
    (follows : Follows rest) where
  drop_inside : (i : ℕ) → i ≤ length o → drop (off + i) pack ≡ drop i o ++ rest
  drop_inside i h = sym (drop-drop off i pack) ∙ ap (drop i) here ∙ drop-append_le i o rest h

  pub drop_behind : drop (off + length o) pack ≡ rest
  drop_behind =
      sym (drop-drop off (length o) pack)
      ∙ ap (drop (length o)) here
      ∙ drop-append_length o rest (length o) refl

  pub length_pack : off ≤ length pack → off + length o + length rest ≡ length pack
  length_pack h =
      let a = ap length here in
      let b = length-append o rest in let c = length-drop off pack in omega arith

  drop_behind_from :
      (start : ℕ) → start ≤ off + length o → drop (off + length o - start) (drop start pack) ≡ rest
  drop_behind_from start h =
      let e : start + (off + length o - start) ≡ off + length o = omega arith in
      drop-drop start (off + length o - start) pack ∙ ap (λ n. drop n pack) e ∙ drop_behind

  -- No magic inside the object is taken for its end.
  inner_passed :
      (i : ℕ)
      → i < length o
      → take 4 (drop (off + i) pack) ≡ arqo_magic
      → is_aligned (i - 116) ≡ false
  inner_passed i h m = elim (Bool-cases (is_aligned (i - 116))) [
    | inr other ↦ other
    | inl fits ↦ absurd (object.no_inner i h fits (same_four fits))
  ]
    where
      same_four : is_aligned (i - 116) ≡ true → take 4 (drop i o) ≡ arqo_magic
      same_four fits =
          let (a, b) = aligned_size (i - 116) fits in
          let (c, d) = aligned_size (length o - 116) object.size in
          let room : 4 ≤ length (drop i o) = omega (arith, length-drop i o) in
          sym (take-append_le 4 (drop i o) rest room)
          ∙ ap (take 4) (sym (drop_inside i (omega arith)))
          ∙ m

  none_at_end :
      (start : ℕ)
      → start ≤ off + length o
      → off ≤ length pack
      → find_magic pack start ≡ none
      → length pack ≡ off + length o
  none_at_end start b c missing = of_follows follows
    where
      of_follows : Follows rest → length pack ≡ off + length o
      of_follows (inl e) = let l = length_pack c in let z = ap length e in omega arith
      of_follows (inr m) = absurd (
          magic_none pack start missing (off + length o - start)
            (ap (take 4) (drop_behind_from start b) ∙ m))

  -- A magic that is found past the object's end is the next object's.
  found_at_end :
      (start cand : ℕ)
      → start ≤ off + length o
      → off ≤ length pack
      → find_magic pack start ≡ some cand
      → off + length o ≤ cand
      → cand ≡ off + length o
  found_at_end start cand b c found past = of_follows follows
    where
      of_follows : Follows rest → cand ≡ off + length o
      of_follows (inl e) =
          let (k, at, m, first) = magic_first pack start cand found in
          let l = length_pack c in
          let z = ap length e in
          let (lo, hi) = find_magic_bounds pack start cand found in absurd (omega arith)
      of_follows (inr n) =
          let (k, at, m, first) = magic_first pack start cand found in
          let near = first (off + length o - start) (ap (take 4) (drop_behind_from start b) ∙ n) in
          omega arith

  magic_at :
      (start cand : ℕ)
      → find_magic pack start ≡ some cand
      → off ≤ cand
      → take 4 (drop (off + (cand - off)) pack) ≡ arqo_magic
  magic_at start cand found h =
      let (k, at, m, first) = magic_first pack start cand found in
      let e : off + (cand - off) ≡ start + k = omega arith in
      ap (λ n. take 4 (drop n pack)) e ∙ ap (take 4) (sym (drop-drop start k pack)) ∙ m

  pub find_end_object :
      (fuel search_from : ℕ)
      → off < search_from
      → search_from ≤ off + length o
      → off ≤ length pack
      → length pack < fuel + search_from
      → find_end pack off fuel search_from ≡ some (off + length o)
  unfolding find_end
  find_end_object zero search_from a b c f = let l = length_pack c in absurd (omega arith)
  find_end_object (suc fuel) search_from a b c f =
      elim (Option-cases (find_magic pack search_from)) [
        | inl missing ↦ rw (missing, find_end) (ap some (none_at_end search_from b c missing))
        | inr (cand, found) ↦
            let (lo, hi) = find_magic_bounds pack search_from cand found in
            rw (found, find_end)
              (elim (Bool-cases (ltb cand (off + length o))) [
                | inl inside ↦
                    let passed =
                      inner_passed (cand - off) (ground arith)
                        (magic_at search_from cand found (omega arith)) in
                    rw passed
                      (find_end_object fuel (cand + 1) (omega arith) (ground arith) c (omega arith))
                | inr past ↦
                    let e = found_at_end search_from cand b c found (ground arith) in
                    let len : length o ≡ cand - off = omega arith in
                    rw (subst (λ n. is_aligned (n - 116) ≡ true) len object.size) (ap some e)
              ])
      ]
