-- ===== src/Chunker/Splits.antt =====
-- What the chunkers of arq_writer/chunker.py promise of their chunks, and the step both loops share.
use arq_backup_tui.Common.{
  ℕ, ◌+◌, ◌-◌, ◌≤◌, ◌<◌, ◌≡◌, sym, ap, ◌∙◌, ◌⊎◌, Option, none, some, List, [], ◌∷◌, ◌++◌,
  append-nil, arith, length, length-append, length-take, length-drop, cons_some, drop,
}
use mathlib.Core.List.{flatten}
use arq_backup_tui.Common.Slices.{slice, slice-append-drop, drop_all}

-- A chunk is not empty, does not pass the end or the largest size, and is as long as the smallest size
-- unless it is the last.
abbrev pub EndsWell : ℕ → ℕ → ℕ → ℕ → ℕ → Type 0
EndsWell lo hi n start stop =
    (start < stop) × (stop ≤ n) × (stop ≤ start + hi) × ((stop ≡ n) ⊎ (start + lo ≤ stop))

-- A chunk that others follow.
abbrev pub Reaches : ℕ → List ℕ → List (List ℕ) → Type 0
Reaches lo c [] = Unit
Reaches lo c (d ∷ ds) = lo ≤ length c

-- No chunk is empty or above the largest size, and all but the last reach the smallest size.
abbrev pub Sizes : ℕ → ℕ → List (List ℕ) → Type 0
Sizes lo hi [] = Unit
Sizes lo hi (c ∷ cs) = (0 < length c) × (length c ≤ hi) × Reaches lo c cs × Sizes lo hi cs

-- The loop has ended, its chunks make up the input from `start` on, and their sizes are right.
abbrev pub Splits : ℕ → ℕ → List ℕ → ℕ → Option (List (List ℕ)) → Type 0
Splits lo hi input start none = ⊥
Splits lo hi input start (some chunks) = (flatten chunks ≡ drop start input) × Sizes lo hi chunks

length-slice :
    (input : List ℕ) (start stop : ℕ)
    → start ≤ stop
    → stop ≤ length input
    → length (slice input start (stop - start)) ≡ stop - start
length-slice input start stop h l =
    omega (arith, length-take (stop - start) (drop start input), length-drop start input)

pub Splits-step :
    (lo hi : ℕ) (input : List ℕ) (start stop : ℕ) (rest : Option (List (List ℕ)))
    → EndsWell lo hi (length input) start stop
    → Splits lo hi input stop rest
    → Splits lo hi input start (cons_some (slice input start (stop - start)) rest)
unfolding flatten
Splits-step lo hi input start stop none w s = elim s [ ]
Splits-step lo hi input start stop (some []) (a, b, c, d) (e, s) =
    let len = length-slice input start stop (omega arith) b in
    (
      ap (λ r. slice input start (stop - start) ++ r) e
          ∙ slice-append-drop input start stop (omega arith),
      (omega arith, omega arith, tt, tt),
    )
Splits-step lo hi input start stop (some (k ∷ ks)) (a, b, c, d) (e, s) =
    let len = length-slice input start stop (omega arith) b in
    let more : length k + length (flatten ks) ≡ length input - stop =
      sym (length-append k (flatten ks)) ∙ ap length e ∙ length-drop stop input in
    (
      ap (λ r. slice input start (stop - start) ++ r) e
          ∙ slice-append-drop input start stop (omega arith),
      (omega arith, omega arith, omega arith, s),
    )

pub Splits-end :
    (lo hi : ℕ) (input : List ℕ) (start : ℕ)
    → length input ≤ start
    → Splits lo hi input start (some [])
unfolding flatten
Splits-end lo hi input start h = (sym (drop_all start input h), tt)

pub Splits-whole :
    (lo hi : ℕ) (input : List ℕ)
    → 0 < length input
    → length input ≤ hi
    → Splits lo hi input 0 (some (input ∷ []))
unfolding flatten
Splits-whole lo hi input h l = (append-nil input, (h, l, tt, tt))
