-- ===== src/Prelude/Integers.antt =====
-- Python's integers, over the native numbers.
use Prim.Native.Nat.{ℕ, min, max}
use mathlib.Core.Bool.{Bool, false}
use parcel_explorer.Prelude.Tests.{◌==◌}

-- `negsuc n` is -(n + 1).
pub data ℤ : Type 0 where
  pos : ℕ → ℤ
  negsuc : ℕ → ℤ

-- max(low, min(n, high)), for bounds that are not negative
abbrev pub clamp : ℕ → ℕ → ℤ → ℕ
clamp low high (pos n) = max low (min n high)
clamp low high (negsuc n) = low

-- max(1, min(n, high))
abbrev pub clamp_ℤ : ℕ → ℤ → ℤ → ℕ
clamp_ℤ low n (pos high) = clamp low high n
clamp_ℤ low n (negsuc high) = low

abbrev pub ℤ_eq : ℤ → ℤ → Bool
ℤ_eq (pos m) (pos n) = m == n
ℤ_eq (negsuc m) (negsuc n) = m == n
ℤ_eq _ _ = false
