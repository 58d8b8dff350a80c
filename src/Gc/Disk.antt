-- ===== src/Gc/Disk.antt =====
-- A small destination for the examples: files by their paths, and for each directory its names.
use arq_backup_tui.Common.{
  ℕ, ◌≡◌, ◌≢◌, refl, sym, ap, subst, ◌∙◌, Bool, true, false, Option, none, some, List, [], ◌∷◌,
  length, inl, inr, Bool-cases, list_eq, list_eq_iff, if◌then◌else◌,
}
use arq_backup_tui.Common.Int.{ℤ, pos}
use arq_backup_tui.Common.Slices.{slice}
use arq_backup_tui.Wire.Types.{Text}
use arq_backup_tui.Pack.Dict.{Dict, get}
use arq_backup_tui.Backend.{Backend, UnlinkLaws}
use arq_backup_tui.Layout.Paths.{join}

pub record Disk : Type 0 where
  pub files : Dict (List ℕ)
  pub listing : Dict (List Text)

unfoldable pub without : Text → Dict (List ℕ) → Dict (List ℕ)
without p [] = []
without p ((q, content) ∷ files) =
    let rest = without p files in if list_eq q p then rest else (q, content) ∷ rest

unfoldable pub names_without : Text → Text → List Text → List Text
names_without p d [] = []
names_without p d (n ∷ ns) =
    let rest = names_without p d ns in if list_eq (join d n) p then rest else n ∷ rest

unfoldable pub listing_without : Text → Dict (List Text) → Dict (List Text)
listing_without p [] = []
listing_without p ((d, names) ∷ listing) = (d, names_without p d names) ∷ listing_without p listing

abbrev pub is_some {ℓ} : {A : Type ℓ} → Option A → Bool
is_some none = false
is_some (some a) = true

abbrev pub range_of : Option (List ℕ) → ℤ → ℤ → Option (List ℕ)
range_of (some content) (pos offset) (pos size) = some (slice content offset size)
range_of other offset size = none

abbrev pub size_of : Option (List ℕ) → Option ℕ
size_of none = none
size_of (some content) = some (length content)

abbrev pub disk_backend : Backend Disk
disk_backend = record {
  list_dir = λ s d. get s.listing d;
  stat_size = λ s p. size_of (get s.files p);
  read_range = λ s p offset size. range_of (get s.files p) offset size;
  read_all = λ s p. get s.files p;
  exists = λ s p. if is_some (get s.files p) then true else is_some (get s.listing p);
  is_dir = λ s d. is_some (get s.listing d);
  unlink =
      λ s p. some (record { files = without p s.files; listing = listing_without p s.listing });
}

abbrev pub Differs : Text → Text → Type 0
Differs p q = p ≢ q

abbrev pub NoEntry : Text → Text → Type 0
NoEntry p d = (n : Text) → join d n ≢ p

get-without : (p q : Text) (files : Dict (List ℕ)) → p ≢ q → get (without p files) q ≡ get files q
unfolding get without
get-without p q [] h = refl
get-without p q ((k, content) ∷ files) h = elim (Bool-cases (list_eq k p)) [
  | inl same ↦ elim (Bool-cases (list_eq k q)) [
    | inl equal ↦ absurd (h (sym ((list_eq_iff k p).0 same) ∙ (list_eq_iff k q).0 equal))
    | inr other ↦ rw (same, other) (get-without p q files h)
  ]
  | inr differs ↦ rw (differs, get-without p q files h) refl
]

names_without-none :
    (p d : Text) (names : List Text) → NoEntry p d → names_without p d names ≡ names
unfolding names_without
names_without-none p d [] h = refl
names_without-none p d (n ∷ ns) h = elim (Bool-cases (list_eq (join d n) p)) [
  | inl same ↦ absurd (h n ((list_eq_iff (join d n) p).0 same))
  | inr other ↦ rw other (ap (λ t. n ∷ t) (names_without-none p d ns h))
]

get-listing_without :
    (p d : Text) (listing : Dict (List Text))
    → NoEntry p d
    → get (listing_without p listing) d ≡ get listing d
unfolding get listing_without
get-listing_without p d [] h = refl
get-listing_without p d ((k, names) ∷ listing) h = elim (Bool-cases (list_eq k d)) [
  | inl same ↦
      let kd : k ≡ d = (list_eq_iff k d).0 same in
      rw same
        (ap some (names_without-none p k names (λ n. subst (λ c. join c n ≢ p) (sym kd) (h n))))
  | inr other ↦ rw other (get-listing_without p d listing h)
]

is_some-listing_without :
    (p d : Text) (listing : Dict (List Text))
    → is_some (get (listing_without p listing) d) ≡ is_some (get listing d)
unfolding get listing_without
is_some-listing_without p d [] = refl
is_some-listing_without p d ((k, names) ∷ listing) = elim (Bool-cases (list_eq k d)) [
  | inl same ↦ rw same refl
  | inr other ↦ rw other (is_some-listing_without p d listing)
]

unlinked_files :
    (s s' : Disk) (p : Text) → disk_backend.unlink s p ≡ some s' → s'.files ≡ without p s.files
unlinked_files s s' p u = cc

unlinked_listing :
    (s s' : Disk) (p : Text)
    → disk_backend.unlink s p ≡ some s'
    → s'.listing ≡ listing_without p s.listing
unlinked_listing s s' p u = cc

pub disk_laws : UnlinkLaws disk_backend Differs NoEntry
disk_laws = record {
  read_all-unlink = λ s s' p q u h. rw (unlinked_files s s' p u) (get-without p q s.files h);
  read_range-unlink = λ s s' p q offset size u h.
      rw (unlinked_files s s' p u) (ap (λ c. range_of c offset size) (get-without p q s.files h));
  is_dir-unlink =
      λ s s' p d u. rw (unlinked_listing s s' p u) (is_some-listing_without p d s.listing);
  list_dir-unlink =
      λ s s' p d u h. rw (unlinked_listing s s' p u) (get-listing_without p d s.listing h);
}
