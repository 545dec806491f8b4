-- ===== src/Prelude/Float.antt =====
-- `float64` values as their bits, with the order of IEEE 754.
use Prim.Native.Nat.{ℕ, ◌%◌, ◌^◌, zero, suc}
use mathlib.Core.Bool.{Bool, not, ◌&&◌}
use unifi_stubd.Prelude.{ltb, if◌then◌else◌}
use unifi_stubd.Prelude.Int.{ℤ, pos, negsuc, ltb_ℤ}

-- The 64 bits of a `float64`.
pub record Float64 : Type 0 where
  pub bits : ℕ

abbrev magnitude : Float64 → ℕ
magnitude x = x.bits % 2 ^ 63

abbrev pub is_nan : Float64 → Bool
is_nan x = ltb 0x7ff0000000000000 (magnitude x)

-- The bits as a number in the order of the values, with both zeros at 0.
abbrev minus : ℕ → ℤ
minus zero = pos 0
minus (suc n) = negsuc n

abbrev rank : Float64 → ℤ
rank x = if ltb x.bits (2 ^ 63) then pos (magnitude x) else minus (magnitude x)

-- `x < y`, which is false at NaN.
unfoldable pub less : Float64 → Float64 → Bool
less x y = not (is_nan x) && not (is_nan y) && ltb_ℤ (rank x) (rank y)

abbrev pub float_zero : Float64
float_zero = record { bits = 0 }

abbrev pub float_hundred : Float64
float_hundred = record { bits = 0x4059000000000000 }
