-- ===== src/Prelude/Words.antt =====
-- Go's `int` as an integer, compared with the constants of the source; the bounds of uint64; and
-- float64 as the bit pattern of IEEE 754 binary64.
use Prim.Native.Nat.{ℕ, ◌-◌, ◌%◌, ◌/◌, ◌^◌}
use mathlib.Core.Bool.{Bool, true, false, not, ◌&&◌}
use homelab_inventory_agent.Prelude.Tests.{ltb, ◌==◌}

-- `negsuc n` is -(n + 1).
pub data ℤ : Type 0 where
  pos : ℕ → ℤ
  negsuc : ℕ → ℤ

-- `x < k`, `x > k` and `x == k` for a constant `k` that is not negative.
abbrev pub below : ℤ → ℕ → Bool
below (pos n) k = ltb n k
below (negsuc n) k = true

abbrev pub above : ℤ → ℕ → Bool
above (pos n) k = ltb k n
above (negsuc n) k = false

abbrev pub equals : ℤ → ℕ → Bool
equals (pos n) k = n == k
equals (negsuc n) k = false

abbrev pub u64_mod : ℕ
u64_mod = 2 ^ 64

-- The largest integer that a float64 holds with all below it: 1<<53 - 1.
abbrev pub max_safe : ℕ
max_safe = 2 ^ 53 - 1

-- float64: 1 bit of sign, 11 of exponent, 52 of fraction.
pub record Float : Type 0 where
  pub bits : ℕ

abbrev exponent : Float → ℕ
exponent x = (x.bits / 2 ^ 52) % 2 ^ 11

abbrev fraction : Float → ℕ
fraction x = x.bits % 2 ^ 52

-- math.IsNaN, and math.IsInf with sign 0
unfoldable pub is_nan : Float → Bool
is_nan x = exponent x == 2047 && not (fraction x == 0)

unfoldable pub is_inf : Float → Bool
is_inf x = exponent x == 2047 && fraction x == 0

-- `x < 0`: false for -0 and for NaN.
unfoldable pub is_negative : Float → Bool
unfolding is_nan
is_negative x = (x.bits / 2 ^ 63) % 2 == 1 && not (x.bits % 2 ^ 63 == 0) && not (is_nan x)

-- float64(n) of a uint64 or a positive int64, and the operations.
pub record FloatLibrary : Type 0 where
  pub of_integer : ℕ → Float
  pub multiply : Float → Float → Float
  pub divide : Float → Float → Float
