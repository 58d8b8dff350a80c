-- ===== src/Backend.antt =====
-- arq_validator/backend.py: the `Backend` protocol, as an interface over a type of states. `none` is a
-- call that raises an OSError or a RuntimeError, as those of the repository's backends do; a call that
-- raises changes nothing.
use arq_backup_tui.Common.{ℕ, Bool, ◌≡◌, Option, some, List}
use arq_backup_tui.Common.Int.{ℤ}
use arq_backup_tui.Wire.Types.{Text}

pub record Backend (State : Type 0) : Type 0 where
  pub list_dir : State → Text → Option (List Text)
  pub stat_size : State → Text → Option ℕ
  pub read_range : State → Text → ℤ → ℤ → Option (List ℕ)
  pub read_all : State → Text → Option (List ℕ)
  pub exists : State → Text → Bool
  pub is_dir : State → Text → Bool
  pub unlink : State → Text → Option State

-- What the deletion of a file leaves alone. `Apart p q`: the paths p and q lead to different files;
-- `Outside p d`: p is no entry of the directory d.
pub record UnlinkLaws {State : Type 0} (b : Backend State) (Apart Outside : Text → Text → Type 0)
    : Type 0 where
  pub read_all-unlink :
      (s s' : State) (p q : Text)
      → b.unlink s p ≡ some s'
      → Apart p q
      → b.read_all s' q ≡ b.read_all s q
  pub read_range-unlink :
      (s s' : State) (p q : Text) (offset length : ℤ)
      → b.unlink s p ≡ some s'
      → Apart p q
      → b.read_range s' q offset length ≡ b.read_range s q offset length
  pub is_dir-unlink :
      (s s' : State) (p d : Text) → b.unlink s p ≡ some s' → b.is_dir s' d ≡ b.is_dir s d
  pub list_dir-unlink :
      (s s' : State) (p d : Text)
      → b.unlink s p ≡ some s'
      → Outside p d
      → b.list_dir s' d ≡ b.list_dir s d
