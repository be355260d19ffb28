-- ===== src/Pricing/Charges/Proper.antt =====
-- The fractions that the charges are computed with keep their denominators positive.
use native.Mathlib.Nat
use lite_api.Common.{
  ℕ, inl, inr, ◌+◌, ◌-◌, ◌*◌, ◌^◌, ◌≤◌, ◌<◌, ◌==◌, nat_eq, string_eq, text_eq, codes, ◌≡◌, refl,
  Text, String, ◌||◌, ◌&&◌, List, [], ◌∷◌, Option, none, some, length, Bool-cases, arith,
}
use lite_api.Common.Errors.{ok}
use lite_api.Common.Rat.{Rat, one_rat, ◌*ℚ◌, ◌+ℚ◌, round_to, is_positive}
use lite_api.Pricing.Numbers.{Price, Decimal, decimal, magnitude, rat_of, rat, decimal_or}
use lite_api.Pricing.Periods.{
  Period, TimePrice, LocalTime, Moment, in_period, period_at, local_multiplier, multiplier_at,
}
use lite_api.Pricing.Cards.Intervals.{Card, Interval}
use lite_api.Pricing.Charges.Tokens.{
  Audio, no_audio, bad_audio, audio, UnitPrices, interval_or, resolved_price, hour_price,
  token_prices,
}
use lite_api.Pricing.Charges.Parts.{
  component, fast_multiplier, tier_multiplier, effort_multiplier, image_input_price,
}

-- A fraction that `big.Rat` can hold.
abbrev pub IsProper : Rat → Type 0
IsProper r = 0 < r.den

abbrev pub IsProperOr : Option Rat → Type 0
IsProperOr o = (r : Rat) → o ≡ some r → IsProper r

-- `n` is the number of units of `10 ^ -scale` nearest to `r`, the upper one of two.
abbrev pub IsNearest : ℕ → Rat → ℕ → Type 0
IsNearest scale r n =
    (2 * n * r.den ≤ 2 * (r.num * 10 ^ scale) + r.den)
    × (2 * (r.num * 10 ^ scale) + r.den < 2 * (n + 1) * r.den)

pub round_to-IsNearest : (scale : ℕ) (r : Rat) → IsProper r → IsNearest scale r (round_to scale r)
unfolding round_to
round_to-IsNearest scale r p =
    let positive : 0 < 2 * r.den = omega arith in
    let low = Nat.div-mul-le_self (r.num * 10 ^ scale * 2 + r.den) (2 * r.den) in
    let high = Nat.lt-mul-div-succ (r.num * 10 ^ scale * 2 + r.den) positive in
    (grind arith, grind arith)

pub mul-IsProper : (r s : Rat) → IsProper r → IsProper s → IsProper (r *ℚ s)
unfolding ◌*ℚ◌
mul-IsProper r s p q = Nat.mul-le-mul p q

pub add-IsProper : (r s : Rat) → IsProper r → IsProper s → IsProper (r +ℚ s)
unfolding ◌+ℚ◌
add-IsProper r s p q = Nat.mul-le-mul p q

ten_pow : (k : ℕ) → 0 < 10 ^ k
ten_pow k = Nat.one-le-pow k 10 (omega arith)

rat_of-IsProper : (d : Option Decimal) → IsProper (rat_of d)
unfolding rat_of magnitude
rat_of-IsProper none = omega arith
rat_of-IsProper (some d) = elim (Bool-cases (d.exponent_negative)) [
  | inl e ↦ rw (e) (ten_pow (d.fraction + d.exponent))
  | inr e ↦ rw (e) (ten_pow (d.fraction - d.exponent))
]

pub rat-IsProper : (n : Text) → IsProper (rat n)
unfolding rat
rat-IsProper n = rat_of-IsProper (decimal n)

pub decimal_or-IsProper : (n : Price) (r : Rat) → IsProper r → IsProper (decimal_or n r)
unfolding decimal_or
decimal_or-IsProper none r p = p
decimal_or-IsProper (some n) r p = rat-IsProper n

-- What the program reads of a policy and of a usage keeps its denominators positive.
abbrev pub IsProperAudio : Audio → Type 0
IsProperAudio no_audio = Unit
IsProperAudio bad_audio = Unit
IsProperAudio (audio r) = IsProper r

pub some-IsProperOr : (r : Rat) → IsProper r → IsProperOr (some r)
some-IsProperOr r p s h = ground arith

pub component-IsProper :
    (count : ℕ) (price : Option Rat) {r : Rat}
    → IsProperOr price
    → component count price ≡ ok r
    → IsProper r
unfolding component ◌*ℚ◌
component-IsProper count none p h = ground arith
component-IsProper count (some q) p h =
    let proper : IsProper q = p q refl in
    elim (Bool-cases (count == 0)) [ inl e ↦ ground arith | inr e ↦ ground arith ]

resolved_price-IsProper : (base n m : Price) → IsProperOr (resolved_price base n m)
unfolding resolved_price
resolved_price-IsProper base (some n) m r h = ground (arith, rat-IsProper n)
resolved_price-IsProper none none m r h = absurd cc
resolved_price-IsProper (some b) none m r h = ground (
  arith,
  mul-IsProper (rat b) (decimal_or m one_rat) (rat-IsProper b)
      (decimal_or-IsProper m one_rat (omega arith)),
)

hour_price-IsProper :
    (w w' : Price) (resolved : Option Rat)
    → IsProperOr resolved
    → IsProperOr (hour_price w w' resolved)
unfolding hour_price
hour_price-IsProper (some w) none o p r h = ground (arith, rat-IsProper w)
hour_price-IsProper none w' o p r h = p r h
hour_price-IsProper (some w) (some w') o p r h = p r h

pub image_input_price-IsProper :
    (n : Price) (o : Option Rat) → IsProperOr o → IsProperOr (image_input_price n o)
unfolding image_input_price
image_input_price-IsProper none o p r h = p r h
image_input_price-IsProper (some n) o p r h = elim (Bool-cases (is_positive (rat n))) [
  | inl e ↦ ground (arith, rat-IsProper n)
  | inr e ↦ p r (ground arith)
]

pub effort_multiplier-IsProper :
    (ms : List (String × Text)) (effort : String) → IsProper (effort_multiplier ms effort)
unfolding effort_multiplier
effort_multiplier-IsProper [] effort = omega arith
effort_multiplier-IsProper ((e, n) ∷ rest) effort = elim (Bool-cases (e == effort)) [
  | inl t ↦ rw (t) (rat-IsProper n)
  | inr t ↦ rw (t) (effort_multiplier-IsProper rest effort)
]

period_at-IsProper : (sec : ℕ) (ps : List Period) → IsProper (period_at sec ps)
unfolding period_at
period_at-IsProper sec [] = omega arith
period_at-IsProper sec (p ∷ ps) = elim (Bool-cases (in_period sec p)) [
  | inl t ↦ rw (t) (rat-IsProper p.period_multiplier)
  | inr t ↦ rw (t) (period_at-IsProper sec ps)
]

local_multiplier-IsProper : (p : TimePrice) (t : Option LocalTime) → IsProper (local_multiplier p t)
unfolding local_multiplier
local_multiplier-IsProper p none = omega arith
local_multiplier-IsProper p (some t) = elim (Bool-cases (p.weekdays_only && t.is_weekend)) [
  | inl e ↦ rw (e) (omega arith)
  | inr e ↦ rw (e) (period_at-IsProper t.second p.periods)
]

pub multiplier_at-IsProper : (p : Option TimePrice) (at : Moment) → IsProper (multiplier_at p at)
unfolding multiplier_at
multiplier_at-IsProper none at = omega arith
multiplier_at-IsProper (some p) at = elim (Bool-cases (length p.periods == 0 || at.is_zero)) [
  | inl e ↦ rw (e) (omega arith)
  | inr e ↦ rw (e) (local_multiplier-IsProper p (at.local p.timezone))
]

fast_multiplier-IsProper :
    (n : Price) (o : Option Rat) → IsProperOr o → IsProper (fast_multiplier n o)
unfolding fast_multiplier
fast_multiplier-IsProper none none p = omega arith
fast_multiplier-IsProper none (some r) p = p r refl
fast_multiplier-IsProper (some n) o p = rat-IsProper n

pub tier_multiplier-IsProper :
    (p : Card) (tier : Text) → IsProperOr p.fast_ratio → IsProper (tier_multiplier p tier)
unfolding tier_multiplier
tier_multiplier-IsProper p tier h =
    elim (Bool-cases (tier == codes "priority" || tier == codes "fast")) [
      | inl e ↦ rw (e) (fast_multiplier-IsProper p.fast p.fast_ratio h)
      | inr e ↦ elim (Bool-cases (tier == codes "ultrafast")) [
        | inl f ↦ rw (e, f) (omega arith)
        | inr f ↦ elim (Bool-cases (tier == codes "flex")) [
          | inl g ↦ rw (e, f, g) (decimal_or-IsProper p.flex _ (omega arith))
          | inr g ↦ rw (e, f, g) (omega arith)
        ]
      ]
    ]

abbrev pub AreProper : UnitPrices → Type 0
AreProper u =
    IsProperOr u.input_price
    × IsProperOr u.output_price
    × IsProperOr u.write_price
    × IsProperOr u.write_1h_price
    × IsProperOr u.read_price

pub token_prices-AreProper :
    (p : Card) (selected : Option Interval) → AreProper (token_prices p selected)
unfolding token_prices
token_prices-AreProper p selected =
    let iv = interval_or selected in
    (
      resolved_price-IsProper p.input iv.input iv.input_multiplier,
      resolved_price-IsProper p.output iv.output iv.output_multiplier,
      resolved_price-IsProper p.cache_write iv.cache_write iv.write_multiplier,
      hour_price-IsProper iv.cache_write iv.cache_write_1h _
          (resolved_price-IsProper _ iv.cache_write_1h iv.write_multiplier),
      resolved_price-IsProper p.cache_read iv.cache_read iv.read_multiplier,
    )
