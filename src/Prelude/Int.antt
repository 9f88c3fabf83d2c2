-- ===== src/Prelude/Int.antt =====
-- Python's integers.
use Prim.Native.Nat.{ℕ, ◌≤◌}
use mathlib.Core.Path.{◌≡◌}
use mathlib.Core.Bool.{Bool, false}
use mathlib.Core.Option.{Option, none, some}
use native.Mathlib.Omega.{arith}
use mesh_direct.Prelude.Tests.{leb, nat_eq, if◌then◌else◌}

-- `negsuc n` is -(n + 1).
pub data ℤ : Type 0 where
  pos : ℕ → ℤ
  negsuc : ℕ → ℤ

-- The value, unless it is negative.
abbrev pub to_ℕ? : ℤ → Option ℕ
to_ℕ? (pos n) = some n
to_ℕ? (negsuc n) = none

-- `z == n`
abbrev pub is_nat : ℤ → ℕ → Bool
is_nat (pos m) n = nat_eq m n
is_nat (negsuc m) n = false

-- The value, if `lo <= z <= hi`.
abbrev pub between : ℕ → ℕ → ℤ → Option ℕ
between lo hi (pos n) = if leb lo n then (if leb n hi then some n else none) else none
between lo hi (negsuc n) = none

pub between-eq-some :
    (lo hi : ℕ) (z : ℤ) (n : ℕ) → between lo hi z ≡ some n → (z ≡ pos n) × (lo ≤ n) × (n ≤ hi)
between-eq-some lo hi (pos m) n h = ground arith
between-eq-some lo hi (negsuc m) n h = ground arith
