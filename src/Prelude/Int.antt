-- ===== src/Prelude/Int.antt =====
-- Integers that may be negative, for the hours that remain on an overbooked day.
use Prim.Native.Nat.{ℕ, ◌+◌, ◌-◌, ◌≤◌}
use mathlib.Core.Path.{◌≡◌}
use mathlib.Core.Bool.{Bool, true}
use native.Mathlib.Omega.{arith}
use planner_dev.Prelude.Tests.{leb, if◌then◌else◌}

-- `negsuc n` is -(n + 1).
pub data ℤ : Type 0 where
  pos : ℕ → ℤ
  negsuc : ℕ → ℤ

-- a - b, as an integer.
abbrev pub sub_ℕ : ℕ → ℕ → ℤ
sub_ℕ a b = if leb b a then pos (a - b) else negsuc (b - a - 1)

-- n ≤ z
abbrev pub le_ℤ : ℕ → ℤ → Bool
le_ℤ n (pos m) = leb n m
le_ℤ n (negsuc m) = leb 1 0

-- The value of a positive integer, 0 for the others.
abbrev pub to_ℕ : ℤ → ℕ
to_ℕ (pos n) = n
to_ℕ (negsuc n) = 0

pub le_ℤ→add_le : (n a b : ℕ) → le_ℤ n (sub_ℕ a b) ≡ true → b + n ≤ a
le_ℤ→add_le n a b h = ground arith

pub add_le→le_ℤ : (n a b : ℕ) → b + n ≤ a → le_ℤ n (sub_ℕ a b) ≡ true
add_le→le_ℤ n a b h = ground arith
