-- ===== src/Exclusions/Paths.antt =====
-- Python's `lstrip("/")`, `split("/")`, `"/".join`, `rsplit("/", 1)[-1]` and `_path_suffixes`.
use arq_backup_tui.Common.{
  ℕ, ◌≡◌, refl, sym, ap, subst, append_assoc, ◌∙◌, Bool-cases, List, [], ◌∷◌, ◌++◌, All, ◌==◌,
  ==_iff, inl, inr, if◌then◌else◌,
}
use arq_backup_tui.Wire.Types.{Text}

abbrev pub slash : ℕ
slash = 0x2f

unfoldable pub lstrip_slash : Text → Text
lstrip_slash [] = []
lstrip_slash (c ∷ cs) = let rest = lstrip_slash cs in if c == slash then rest else c ∷ cs

-- The parts, the first apart from the others: `split` returns one at least.
unfoldable pub split_slash : Text → Text × List Text
split_slash [] = ([], [])
split_slash (c ∷ cs) =
    let (part, parts) = split_slash cs in
    if c == slash then ([], part ∷ parts) else (c ∷ part, parts)

unfoldable pub join_slash : Text → List Text → Text
join_slash part [] = part
join_slash part (next ∷ parts) = part ++ slash ∷ join_slash next parts

unfoldable pub last_part : Text → List Text → Text
last_part part [] = part
last_part part (next ∷ parts) = last_part next parts

unfoldable pub basename : Text → Text
basename path = last_part (split_slash path).0 (split_slash path).1

-- `"/".join(parts[i:])` for i from 1 on.
unfoldable pub joined_tails : List Text → List Text
joined_tails [] = []
joined_tails (part ∷ parts) = join_slash part parts ∷ joined_tails parts

unfoldable pub path_suffixes : Text → List Text
path_suffixes path = joined_tails (split_slash path).1

-- A part of a path behind one of its slashes.
abbrev pub IsSuffix : Text → Text → Type 0
IsSuffix path s = (before : Text) × (path ≡ before ++ slash ∷ s)

join_slash-cons :
    (c : ℕ) (part : Text) (parts : List Text)
    → join_slash (c ∷ part) parts ≡ c ∷ join_slash part parts
unfolding join_slash
join_slash-cons c part [] = refl
join_slash-cons c part (next ∷ parts) = refl

join_slash-nil :
    (next : Text) (parts : List Text) → join_slash [] (next ∷ parts) ≡ slash ∷ join_slash next parts
unfolding join_slash
join_slash-nil next parts = refl

join-split : (path : Text) → join_slash (split_slash path).0 (split_slash path).1 ≡ path
unfolding split_slash
join-split [] = unfold join_slash in refl
join-split (c ∷ cs) =
    let ih = join-split cs in
    elim (Bool-cases (c == slash)) [
      | inl here ↦
          let e = (==_iff c slash).0 here in
          rw (here, split_slash)
            (join_slash-nil (split_slash cs).0 (split_slash cs).1
              ∙ ap (λ t. slash ∷ t) ih
              ∙ ap (λ b. b ∷ cs) (sym e))
      | inr other ↦
          rw (other, split_slash)
            (join_slash-cons c (split_slash cs).0 (split_slash cs).1 ∙ ap (λ t. c ∷ t) ih)
    ]

IsSuffix-append :
    (part path : Text) (ss : List Text)
    → All (IsSuffix path) ss
    → All (IsSuffix (part ++ slash ∷ path)) ss
IsSuffix-append part path [] h = tt
IsSuffix-append part path (s ∷ ss) ((before, e), h) = (
  (
    part ++ slash ∷ before,
    ap (λ p. part ++ slash ∷ p) e ∙ sym (append_assoc part (slash ∷ before) (slash ∷ s)),
  ),
  IsSuffix-append part path ss h,
)

joined_tails-IsSuffix :
    (part : Text) (parts : List Text) → All (IsSuffix (join_slash part parts)) (joined_tails parts)
unfolding join_slash joined_tails
joined_tails-IsSuffix part [] = tt
joined_tails-IsSuffix part (next ∷ parts) = (
  (part, refl),
  IsSuffix-append part (join_slash next parts) (joined_tails parts)
      (joined_tails-IsSuffix next parts),
)

-- Every text that _path_suffixes gives is what stands in the path behind one of its slashes.
pub path_suffixes-IsSuffix : (path : Text) → All (IsSuffix path) (path_suffixes path)
unfolding path_suffixes
path_suffixes-IsSuffix path =
    subst (λ p. All (IsSuffix p) (joined_tails (split_slash path).1)) (join-split path)
      (joined_tails-IsSuffix (split_slash path).0 (split_slash path).1)
