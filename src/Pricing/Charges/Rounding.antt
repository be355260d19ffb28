-- ===== src/Pricing/Charges/Rounding.antt =====
-- The rounding of what a request costs.
pub mod Amounts
use lite_api.Common.{
  ℕ, inl, inr, ltb, if◌then◌else◌, ◌==◌, nat_eq, string_eq, text_eq, refl, ◌||◌, ◌&&◌, none, some,
  Bool-cases,
}
use lite_api.Common.Errors.{Result, err, ◌>>=◌}
use lite_api.Common.Strings.{trim_space, to_lower}
use lite_api.Common.Rat.{Rat, zero_rat, ◌*ℚ◌}
use lite_api.Pricing.Numbers.{Price}
use lite_api.Pricing.Periods.{multiplier_at}
use lite_api.Pricing.Charges.Tokens.{
  Audio, no_audio, bad_audio, audio, Cost, UnitPrices, interval_at, token_prices,
}
use lite_api.Pricing.Charges.Parts.{
  Parts, no_parts, write_part, tier_multiplier, effort_multiplier, token_parts, scale_parts,
  sum_parts,
}
use lite_api.Pricing.Charges.Requests.{request_price, request_units, audio_or, request_total}
use lite_api.Pricing.Charges.Totals.{context_tokens, is_by_request, amounts}
use lite_api.Pricing.Charges.Proper.{
  IsProper, IsNearest, add-IsProper, decimal_or-IsProper, some-IsProperOr, component-IsProper,
  image_input_price-IsProper, effort_multiplier-IsProper, multiplier_at-IsProper,
  tier_multiplier-IsProper, AreProper, token_prices-AreProper,
}

abbrev pub AmountsNearest : Cost → Rat → Type 0
AmountsNearest c rate =
    IsProper c.total_value
    × IsNearest 10 c.total_value c.total
    × IsNearest 10 (c.total_value *ℚ rate) c.actual
    × IsNearest 8 (c.total_value *ℚ rate) c.debit
