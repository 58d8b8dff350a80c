-- ===== src/Pack/Dict.antt =====
-- Python's `dict` with texts for keys, as an association list: the newest entry of a key counts.
use arq_backup_tui.Common.{
  ◌≡◌, ◌≢◌, Option, none, some, List, [], ◌∷◌, list_eq, list_eq_iff, list_eq_refl, if◌then◌else◌,
  Bool-cases, inl, inr,
}
use arq_backup_tui.Wire.Types.{Text}

abbrev pub Dict {ℓ} : Type ℓ → Type ℓ
Dict V = List (Text × V)

module _ {ℓ} {V : Type ℓ} where
  -- `d.get(k)`
  unfoldable pub get : Dict V → Text → Option V
  get [] k = none
  get ((j, v) ∷ d) k = if list_eq j k then some v else get d k

  -- `d[k] = v`
  unfoldable pub put : Dict V → Text → V → Dict V
  put d k v = (k, v) ∷ d

  pub get-put_self : (d : Dict V) (k : Text) (v : V) → get (put d k v) k ≡ some v
  unfolding get put
  get-put_self d k v = rw (list_eq_refl k)

  pub get-put_ne : (d : Dict V) (k j : Text) (v : V) → k ≢ j → get (put d k v) j ≡ get d j
  unfolding get put
  get-put_ne d k j v h = elim (Bool-cases (list_eq k j)) [
    | inl same ↦ absurd (h ((list_eq_iff k j).0 same))
    | inr other ↦ rw other
  ]
