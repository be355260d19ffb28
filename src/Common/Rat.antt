-- ===== src/Common/Rat.antt =====
-- The `big.Rat` values of the program that are not negative, as fractions that are not reduced.
use Prim.Native.Nat.{ℕ, ◌+◌, ◌*◌, ◌/◌, ◌%◌, ◌^◌}
use mathlib.Core.Bool.{Bool}
use lite_api.Common.Tests.{ltb, nat_beq}

pub record Rat : Type 0 where
  pub num : ℕ
  pub den : ℕ

abbrev pub whole : ℕ → Rat
whole n = record { num = n; den = 1 }

abbrev pub zero_rat : Rat
zero_rat = whole 0

abbrev pub one_rat : Rat
one_rat = whole 1

infixl 70 ◌*ℚ◌
infixl 65 ◌+ℚ◌
unfoldable pub ◌*ℚ◌ : Rat → Rat → Rat
r *ℚ s = record { num = r.num * s.num; den = r.den * s.den }

unfoldable pub ◌+ℚ◌ : Rat → Rat → Rat
r +ℚ s = record { num = r.num * s.den + s.num * r.den; den = r.den * s.den }

-- `Sign() > 0`.
abbrev pub is_positive : Rat → Bool
is_positive r = ltb 0 r.num

-- `FloatString(scale)`, as the number of units of `10 ^ -scale` that it writes: the nearest one, and a
-- tie goes up.
unfoldable pub round_to : ℕ → Rat → ℕ
round_to scale r = (r.num * 10 ^ scale * 2 + r.den) / (2 * r.den)

-- Whether the value is a whole number of those units.
unfoldable pub is_exact : ℕ → Rat → Bool
is_exact scale r = nat_beq ((r.num * 10 ^ scale) % r.den) 0
