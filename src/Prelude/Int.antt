-- ===== src/Prelude/Int.antt =====
-- Signed integers over the native numbers; `negsuc n` is -(n + 1).
use Prim.Native.Nat.{ℕ, ◌-◌, ◌≤◌}
use mathlib.Core.Path.{◌≡◌}
use mathlib.Core.Bool.{Bool, true, false}
use native.Mathlib.Omega.{arith}
use ftd_metrics_exporter.Prelude.Tests.{ltb}

pub data ℤ : Type 0 where
  pos : ℕ → ℤ
  negsuc : ℕ → ℤ

-- max(a - b, 0), for a number b that is not negative.
abbrev pub sub_or_zero : ℤ → ℕ → ℕ
sub_or_zero (pos a) b = a - b
sub_or_zero (negsuc a) b = 0

-- `a > b`
abbrev pub gt : ℤ → ℤ → Bool
gt (pos a) (pos b) = ltb b a
gt (pos a) (negsuc b) = true
gt (negsuc a) (pos b) = false
gt (negsuc a) (negsuc b) = ltb a b

-- The order of the integers.
abbrev pub IsLe : ℤ → ℤ → Type 0
IsLe (pos a) (pos b) = a ≤ b
IsLe (pos a) (negsuc b) = ⊥
IsLe (negsuc a) (pos b) = Unit
IsLe (negsuc a) (negsuc b) = b ≤ a

pub gt-IsLe : (a b : ℤ) → gt a b ≡ false → IsLe a b
gt-IsLe (pos a) (pos b) h = ground arith
gt-IsLe (pos a) (negsuc b) h = ground arith
gt-IsLe (negsuc a) (pos b) h = tt
gt-IsLe (negsuc a) (negsuc b) h = ground arith
