-- ===== src/Pricing/Charges/Totals.antt =====
-- The amounts and their rounding: `calculatePrice` of internal/app/pricing.go.
use lite_api.Common.{
  ℕ, ◌+◌, ltb, if◌then◌else◌, ◌==◌, nat_eq, string_eq, text_eq, Text, String, Bool, false, not,
  ◌||◌, List, [], ◌∷◌, any,
}
use lite_api.Common.Strings.{trim_space, to_lower}
use lite_api.Common.Errors.{Result, ok, ◌>>=◌, ◌>>◌, fail_if, bad}
use lite_api.Common.Rat.{Rat, ◌*ℚ◌, round_to}
use lite_api.Pricing.Numbers.{rat, valid_number}
use lite_api.Pricing.Periods.{Moment, multiplier_at}
use lite_api.Pricing.Cards.Intervals.{Card, max_count}
use lite_api.Pricing.Cards.Validation.{validate_model_prices}
use lite_api.Pricing.Charges.Tokens.{Usage, Cost, interval_at, token_prices}
use lite_api.Pricing.Charges.Requests.{request_price, request_total}
use lite_api.Pricing.Charges.Parts.{
  tier_multiplier, effort_multiplier, Parts, no_parts, token_parts, scale_parts, sum_parts,
}

-- The last lines: the rounding of each amount.
unfoldable pub cost_of : Parts → Rat → Rat → Cost
cost_of ps total rate = record {
  input_cost = round_to 10 ps.input_part;
  output_cost = round_to 10 ps.output_part;
  write_cost = round_to 10 ps.write_part_of;
  read_cost = round_to 10 ps.read_part;
  image_input_cost = round_to 10 ps.image_input_part;
  image_output_cost = round_to 10 ps.image_output_part;
  total = round_to 10 total;
  actual = round_to 10 (total *ℚ rate);
  debit = round_to 8 (total *ℚ rate);
  total_value = total;
}

-- The counts of the usage, in the order of the test.
abbrev pub usage_counts : Usage → List ℕ
usage_counts u =
    u.input_tokens ∷ u.output_tokens ∷ u.write_tokens ∷ u.write_5m ∷ u.write_1h ∷ u.read_tokens
    ∷ u.image_input_tokens ∷ u.image_output_tokens ∷ u.requests ∷ u.video_count ∷ u.video_seconds
    ∷ u.image_count ∷ []

unfoldable pub good_counts : Usage → Bool
good_counts u = not (any (λ n. ltb max_count n) (usage_counts u))

-- The context of the request; it counts only where long contexts have a price.
abbrev pub context_tokens : Usage → ℕ
context_tokens u = u.input_tokens + u.write_tokens + u.read_tokens

abbrev pub is_by_request : String → Bool
is_by_request mode = mode == "per_request" || mode == "image" || mode == "video"

-- The amounts before the rounding: the parts, and their total.
unfoldable pub amounts : Card → Usage → Text → String → Text → Moment → Bool → Result (Parts × Rat)
amounts p u service_tier effort label at long_context =
    if is_by_request p.billing_mode
    then (do
      total ←
          request_total (p.billing_mode == "video") u (effort_multiplier p.reasoning effort)
            (request_price p label (context_tokens u))
      ok (no_parts, total))
    else (do
      let prices =
          token_prices p (interval_at (if long_context then context_tokens u else 1) p.intervals)
      parts ← token_parts p u prices
      let multiplier =
          effort_multiplier p.reasoning effort
          *ℚ tier_multiplier p (to_lower (trim_space service_tier))
          *ℚ multiplier_at p.time_pricing at
      let scaled = scale_parts multiplier parts
      ok (scaled, sum_parts scaled))

-- `calculatePrice`.
unfoldable pub calculate_price :
    Card → Usage → Text → Text → String → Text → Moment → Bool → Result Cost
calculate_price p u rate service_tier effort label at long_context = do
  checked ← validate_model_prices at false (p ∷ [])
  fail_if (not (valid_number rate 6 4)) (bad "invalid billing rate")
  fail_if (not (good_counts u)) (bad "invalid usage count")
  charged ← amounts p u service_tier effort label at long_context
  ok (cost_of charged.0 charged.1 (rat rate))
