-- ===== src/Selection/Profit.antt =====
-- The profit control: profitPlatform, profitThreshold and profitAllows of
-- internal/app/profit_control.go.
use lite_api.Common.{
  ◌-◌, ◌*◌, ltb, leb, if◌then◌else◌, ◌==◌, string_eq, Text, String, Bool, true, false, not, ◌&&◌,
  ◌||◌, Option, none, some,
}
use lite_api.Common.Rat.{Rat, zero_rat, ◌*ℚ◌, ◌+ℚ◌}
use lite_api.Pricing.Numbers.{Decimal, decimal, rat}

unfoldable pub profit_platform : String → Bool
profit_platform platform =
    platform == "openai" || platform == "anthropic" || platform == "gemini" || platform == "grok"

pub record ProfitPolicy : Type 0 where
  pub is_enabled : Bool
  pub margin : Text
  pub buffer : Text

unfoldable pub is_number : Option Decimal → Bool
is_number none = false
is_number (some d) = true

-- `Sign() >= 0`, of a number.
unfoldable pub is_counted : Option Decimal → Bool
is_counted none = false
is_counted (some d) = not (d.negative && ltb 0 d.mantissa)

-- `1 - share`, or 0 where that is negative.
unfoldable pub what_is_left : Rat → Rat
what_is_left share = record { num = share.den - share.num; den = share.den }

-- The last part of `profitThreshold`. The policy keeps its numbers from being negative.
unfoldable pub threshold_of : ProfitPolicy → Text → Rat
threshold_of p rate =
    if is_number (decimal p.margin) && is_number (decimal p.buffer) && is_number (decimal rate)
    then what_is_left (rat p.margin +ℚ rat p.buffer) *ℚ rat rate
    else zero_rat

-- `profitThreshold`, on the protocol, the platform that routes the call and the rate of the billed group.
unfoldable pub profit_threshold : Bool → String → String → ProfitPolicy → Text → Option Rat
profit_threshold count_only protocol platform p rate =
    if count_only
      || not (
          protocol == "responses"
          || protocol == "chat_completions"
          || protocol == "anthropic"
          || protocol == "gemini")
      || not p.is_enabled
      || not (profit_platform platform)
    then none
    else some (threshold_of p rate)

unfoldable pub at_most : Rat → Rat → Bool
at_most r s = leb (r.num * s.den) (s.num * r.den)

-- `profitAllows`.
unfoldable pub profit_allows : Option Rat → Text → Bool
profit_allows none rate = true
profit_allows (some threshold) rate = is_counted (decimal rate) && at_most (rat rate) threshold
