-- ===== src/Base/Int.antt =====
-- Integers over the native numbers, as `sdk.Int` counts a supply.
use Prim.Native.Nat.{ℕ, suc, ◌+◌, ◌-◌}
use mathlib.Core.Path.{◌≡◌}
use native.Mathlib.Omega.{arith}
use blockchain_relay_layer.Base.Tests.{ltb, if◌then◌else◌}

-- `negsuc n` is -(n + 1).
pub data ℤ : Type 0 where
  pos : ℕ → ℤ
  negsuc : ℕ → ℤ

-- The difference of two natural numbers.
abbrev pub diff : ℕ → ℕ → ℤ
diff a b = if ltb a b then negsuc (b - a - 1) else pos (a - b)

-- `Add` and `Sub` of a natural number.
unfoldable pub plus : ℤ → ℕ → ℤ
plus (pos n) a = pos (n + a)
plus (negsuc n) a = diff a (suc n)

unfoldable pub minus : ℤ → ℕ → ℤ
minus (pos n) a = diff n a
minus (negsuc n) a = negsuc (n + a)

pub minus-plus : (z : ℤ) (a : ℕ) → minus (plus z a) a ≡ z
unfolding plus minus
minus-plus (pos n) a = ground arith
minus-plus (negsuc n) a = ground arith
