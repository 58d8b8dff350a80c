-- ===== src/Gc/Deletes.antt =====
-- What the loops that delete do to the files: a sequence of deletions, one step for each file.
use arq_backup_tui.Common.{some, ◌≡◌, refl, ◌∙◌, sym, subst}
use arq_backup_tui.Wire.Types.{Text}
use arq_backup_tui.Backend.{Backend}

module _ {State : Type 0} (b : Backend State) where
  -- From the first state the second is reached by deleting files that satisfy `D`.
  pub data Deletes (D : Text → Type 0) : State → State → Type 0 where
    done : {s s' : State} → s ≡ s' → Deletes D s s'
    step :
        {s s1 s' : State} (path : Text)
        → D path
        → b.unlink s path ≡ some s1
        → Deletes D s1 s'
        → Deletes D s s'

  pub Deletes-refl : {D : Text → Type 0} (s : State) → Deletes D s s
  Deletes-refl s = done refl

  pub Deletes-trans :
      {D : Text → Type 0} {s s1 s2 : State} → Deletes D s s1 → Deletes D s1 s2 → Deletes D s s2
  Deletes-trans {D} {s} {s1} {s2} (done e) h = subst (λ t. Deletes D t s2) (sym e) h
  Deletes-trans (step path d u g) h = step path d u (Deletes-trans g h)

  pub Deletes-mono :
      {D E : Text → Type 0} {s s' : State}
      → ((path : Text) → D path → E path)
      → Deletes D s s'
      → Deletes E s s'
  Deletes-mono f (done e) = done e
  Deletes-mono f (step path d u g) = step path (f path d) u (Deletes-mono f g)

  -- What each of the deletions leaves alone is what it was.
  pub Deletes-keeps {ℓ} :
      {X : Type ℓ} (look : State → X) {D : Text → Type 0} {s s' : State}
      → ((s s' : State) (path : Text) → D path → b.unlink s path ≡ some s' → look s' ≡ look s)
      → Deletes D s s'
      → look s' ≡ look s
  Deletes-keeps look {D} {s} {s'} f (done e) = subst (λ t. look t ≡ look s) e refl
  Deletes-keeps look {D} {s} {s'} f (step {s1} path d u g) =
      Deletes-keeps look f g ∙ f s s1 path d u

  -- Where no file may be deleted, none is.
  pub Deletes-none :
      {D : Text → Type 0} {s s' : State} → ((path : Text) → D path → ⊥) → Deletes D s s' → s' ≡ s
  Deletes-none no_file (done e) = sym e
  Deletes-none no_file (step path d u g) = absurd (no_file path d)
