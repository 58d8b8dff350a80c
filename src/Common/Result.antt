-- ===== src/Common/Result.antt =====
-- A Python function that may raise, as a function that returns a value or an error.
use mathlib.Core.Path.{◌≡◌, refl, ap}
use mathlib.Core.Bool.{Bool, true, false}
use arq_backup_tui.Common.Tests.{if◌then◌else◌}

pub data Result {ℓ κ} (E : Type ℓ) (A : Type κ) : Type (ℓ ⊔ κ) where
  ok : A → Result E A
  err : E → Result E A

module _ {ℓ κ μ} {E : Type ℓ} {A : Type κ} {B : Type μ} where
  -- What follows a call, which an exception skips.
  infixl 5 ◌>>=◌
  abbrev pub ◌>>=◌ : Result E A → (A → Result E B) → Result E B
  ◌>>=◌ r next = elim r [ ok value ↦ next value | err raised ↦ err raised ]

  pub bind_ok :
      (r : Result E A) (next : A → Result E B) (value : A)
      → r ≡ ok value
      → (r >>= next) ≡ next value
  bind_ok r next value e = ap (λ q. q >>= next) e

  -- A sequence that returned had a first step that returned.
  pub bind_returned :
      (r : Result E A) (next : A → Result E B) (result : B)
      → (r >>= next) ≡ ok result
      → (value : A) × (r ≡ ok value) × (next value ≡ ok result)
  bind_returned (ok value) next result h = (value, refl, h)
  bind_returned (err raised) next result h = cc

-- A function that returned got past its guards: those that raise on failure, and those that raise on
-- success.
module _ {ℓ κ} {E : Type ℓ} {A : Type κ} where
  pub if_returned :
      (test : Bool) (r : Result E A) (raised : E) (result : A)
      → (if test then r else err raised) ≡ ok result
      → (test ≡ true) × (r ≡ ok result)
  if_returned true r raised result h = (refl, h)
  if_returned false r raised result h = cc

  pub unless_returned :
      (test : Bool) (r : Result E A) (raised : E) (result : A)
      → (if test then err raised else r) ≡ ok result
      → (test ≡ false) × (r ≡ ok result)
  unless_returned true r raised result h = cc
  unless_returned false r raised result h = (refl, h)
