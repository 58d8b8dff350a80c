-- ===== src/Common/Int.antt =====
-- Python's integers where the program keeps signed ones. `negsuc n` is -(n + 1).
use Prim.Native.Nat.{ℕ}
use mathlib.Core.Path.{◌≡◌, refl}
use mathlib.Core.Bool.{Bool, true, false}
use native.Mathlib.Omega.{arith}
use arq_backup_tui.Common.Tests.{leb}
use arq_backup_tui.Common.Sort.{IsOrder}

pub data ℤ : Type 0 where
  pos : ℕ → ℤ
  negsuc : ℕ → ℤ

unfoldable pub int_le : ℤ → ℤ → Bool
int_le (pos a) (pos b) = leb a b
int_le (pos a) (negsuc b) = false
int_le (negsuc a) (pos b) = true
int_le (negsuc a) (negsuc b) = leb b a

int_le-total : (a b : ℤ) → int_le a b ≡ false → int_le b a ≡ true
unfolding int_le
int_le-total (pos a) (pos b) h = ground arith
int_le-total (pos a) (negsuc b) h = refl
int_le-total (negsuc a) (pos b) h = cc
int_le-total (negsuc a) (negsuc b) h = ground arith

int_le-antisym : (a b : ℤ) → int_le a b ≡ true → int_le b a ≡ true → a ≡ b
unfolding int_le
int_le-antisym (pos a) (pos b) h g = ground arith
int_le-antisym (pos a) (negsuc b) h g = cc
int_le-antisym (negsuc a) (pos b) h g = cc
int_le-antisym (negsuc a) (negsuc b) h g = ground arith

int_le_trans : (a b c : ℤ) → int_le a b ≡ true → int_le b c ≡ true → int_le a c ≡ true
unfolding int_le
int_le_trans (pos a) (pos b) (pos c) h g = ground arith
int_le_trans (pos a) (negsuc b) c h g = cc
int_le_trans (pos a) (pos b) (negsuc c) h g = cc
int_le_trans (negsuc a) b (pos c) h g = refl
int_le_trans (negsuc a) (pos b) (negsuc c) h g = cc
int_le_trans (negsuc a) (negsuc b) (negsuc c) h g = ground arith

pub int_le-IsOrder : IsOrder int_le
int_le-IsOrder = record { total = int_le-total; antisym = int_le-antisym; trans = int_le_trans }
