-- ===== src/Layout/Slash.antt =====
-- Paths as sequences of names without slashes.
use arq_backup_tui.Common.{
  ℕ, ◌≡◌, ◌≢◌, refl, sym, subst, Bool, true, false, ◌&&◌, not, if◌then◌else◌, List, [], ◌∷◌, ◌++◌,
  All, ◌==◌, ==_iff, inl, inr, Bool-cases,
}
use arq_backup_tui.Wire.Types.{Text}
use arq_backup_tui.Layout.Paths.{matches_all, computer_uuid_re, is_hex, is_hex_lower, IsComputer}

abbrev pub NoSlash : Text → Type 0
NoSlash t = All (λ c. c ≢ 0x2f) t

pub slash_inside : (a b : Text) → NoSlash (a ++ 0x2f ∷ b) → ⊥
slash_inside [] b (h, hs) = h refl
slash_inside (c ∷ a) b (h, hs) = slash_inside a b hs

-- The first name of a path is determined by the path.
pub first_name :
    (a c x y : Text) → NoSlash a → NoSlash c → a ++ 0x2f ∷ x ≡ c ++ 0x2f ∷ y → (a ≡ c) × (x ≡ y)
first_name [] [] x y h g e = (refl, cc)
first_name [] (d ∷ c) x y h (g, gs) e = absurd (g cc)
first_name (d ∷ a) [] x y (h, hs) g e = absurd (h cc)
first_name (d ∷ a) (f ∷ c) x y (h, hs) (g, gs) e =
    let tails : a ++ 0x2f ∷ x ≡ c ++ 0x2f ∷ y = cc in
    let heads : d ≡ f = cc in let (same, rest) = first_name a c x y hs gs tails in (cc, rest)

-- A path of two names is parted in one way only.
pub two_names :
    (a x c y : Text) → NoSlash c → NoSlash y → a ++ 0x2f ∷ x ≡ c ++ 0x2f ∷ y → (a ≡ c) × (x ≡ y)
two_names [] x [] y g k e = (refl, cc)
two_names [] x (f ∷ c) y (g, gs) k e = absurd (g cc)
two_names (d ∷ a) x [] y g k e =
    let tail : a ++ 0x2f ∷ x ≡ y = cc in absurd (slash_inside a x (subst NoSlash (sym tail) k))
two_names (d ∷ a) x (f ∷ c) y (g, gs) k e =
    let tails : a ++ 0x2f ∷ x ≡ c ++ 0x2f ∷ y = cc in
    let heads : d ≡ f = cc in let (same, rest) = two_names a x c y gs k tails in (cc, rest)

abbrev rejects_slash : List (ℕ → Bool) → Bool
rejects_slash [] = true
rejects_slash (test ∷ tests) = not (test 0x2f) && rejects_slash tests

and_left : (t u : Bool) → (t && u) ≡ true → t ≡ true
and_left true u h = refl
and_left false u h = cc

and_right : (t u : Bool) → (t && u) ≡ true → u ≡ true
and_right true u h = h
and_right false u h = cc

accepted : (test : ℕ → Bool) (c : ℕ) → not (test 0x2f) ≡ true → test c ≡ true → c ≢ 0x2f
accepted test c r h e =
    let at_slash : test 0x2f ≡ true = subst (λ d. test d ≡ true) e h in
    let rejected : not true ≡ true = subst (λ t. not t ≡ true) at_slash r in cc

matches_all-NoSlash :
    (tests : List (ℕ → Bool)) (t : Text)
    → rejects_slash tests ≡ true
    → matches_all tests t ≡ true
    → NoSlash t
unfolding matches_all
matches_all-NoSlash [] [] r h = tt
matches_all-NoSlash [] (c ∷ []) r h = (λ e. absurd (newline c ((==_iff c 0x0a).0 h) e), tt)
  where
    newline : (c : ℕ) → c ≡ 0x0a → c ≡ 0x2f → ⊥
    newline c e f = cc
matches_all-NoSlash [] (c ∷ d ∷ cs) r h = cc
matches_all-NoSlash (test ∷ tests) [] r h = cc
matches_all-NoSlash (test ∷ tests) (c ∷ cs) r h = (
  accepted test c (and_left (not (test 0x2f)) (rejects_slash tests) r)
      (and_left (test c) (matches_all tests cs) h),
  matches_all-NoSlash tests cs (and_right (not (test 0x2f)) (rejects_slash tests) r)
      (and_right (test c) (matches_all tests cs) h),
)

uuid_rejects : rejects_slash computer_uuid_re ≡ true
unfolding computer_uuid_re is_hex is_hex_lower
uuid_rejects = refl

-- The name of a computer has no slash.
pub IsComputer-NoSlash : (name : Text) → IsComputer name → NoSlash name
IsComputer-NoSlash name h = matches_all-NoSlash computer_uuid_re name uuid_rejects h

abbrev has_slash : Text → Bool
has_slash [] = false
has_slash (c ∷ cs) = if c == 0x2f then true else has_slash cs

pub has_slash-NoSlash : (t : Text) → has_slash t ≡ false → NoSlash t
has_slash-NoSlash [] h = tt
has_slash-NoSlash (c ∷ cs) h = elim (Bool-cases (c == 0x2f)) [
  | inl slash ↦ let e : true ≡ false = rw slash at h in absurd cc
  | inr other ↦
      let e : has_slash cs ≡ false = rw other at h in
      (λ same. absurd (differs same other), has_slash-NoSlash cs e)
]
  where
    differs : c ≡ 0x2f → (c == 0x2f) ≡ false → ⊥
    differs same other = let yes : (c == 0x2f) ≡ true = (==_iff c 0x2f).1 same in cc
