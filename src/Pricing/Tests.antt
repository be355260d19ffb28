-- ===== src/Pricing/Tests.antt =====
-- Prices on concrete cards.
use lite_api.Common.{
  ℕ, ◌+◌, ◌≤◌, ◌<◌, ◌^◌, ◌*◌, ◌≡◌, refl, inl, codes, true, false, [], ◌∷◌, none, some, arith,
  text_beq,
}
use lite_api.Common.Strings.{
  trim_space, to_lower, lower_rune, is_space, has_prefix, trim_star, ends_in_star,
}
use lite_api.Common.Errors.{Result, ok, err}
use lite_api.Common.Rat.{zero_rat, ◌*ℚ◌, ◌+ℚ◌, round_to, is_exact}
use lite_api.Pricing.Numbers.{
  is_digit, read_digits, starts_with_zero, good_whole, finish_exponent, signed_exponent,
  read_exponent, finish_fraction, read_fraction, read_whole, decimal, magnitude, rat_of, rat,
  fits_price, valid_number, valid_price, positive_decimal, valid_multiplier, decimal_or,
}
use lite_api.Pricing.Periods.{
  Moment, two_digits, clock_of, clock_text, clock_seconds, ordered_span, span_of, checked_spans,
  insert_span, sort_spans, spans_overlap, validate_time, second_of, in_period, period_at,
  local_multiplier, multiplier_at,
}
use lite_api.Pricing.Cards.Intervals.{
  Card, Interval, max_count, is_set, good_max, good_bounds, overlaps_max, overlaps_previous,
  checked_interval, clashes, checked_intervals, insert_interval, sort_intervals,
}
use lite_api.Pricing.Cards.Validation.{
  overlaps_name, checked_models, known_mode, known_multiplier, checked_reasoning, checked_prices,
  set_time, has_time, validate_set_time, with_defaults, checked_card, checked_cards,
  validate_model_prices, trim_all, has_periods, group_cards, validate_group_prices,
}
use lite_api.Models.{
  has_control, supported_platform, concrete_model, valid_model_pattern, patterns_overlap,
  pricing_name,
}
use lite_api.Pricing.Charges.Tokens.{
  Usage, Cost, UnitPrices, no_audio, below_max, holds, interval_at, resolved_price, or_price,
  interval_or, hour_price, token_prices,
}
use lite_api.Pricing.Charges.Requests.{
  set_positive, labelled_price, tier_price, request_price, request_units, audio_or, request_total,
}
use lite_api.Pricing.Charges.Parts.{
  component, write_split, tells_writes, write_part, fast_multiplier, tier_multiplier,
  effort_multiplier, image_input_price, token_parts, scale_parts, sum_parts,
}
use lite_api.Pricing.Charges.Totals.{cost_of, good_counts, amounts, calculate_price}
use lite_api.GroupFallback.{grok_search_protocol}
use lite_api.Pricing.Search.{
  standalone_search_cost, search_cost, with_searches, add_hosted_search_cost,
}
use lite_api.Pricing.Charges.Split.{write_split_bounds}
use lite_api.Pricing.Charges.Tiers.{validate_model_prices-interval_at}

abbrev now : Moment
now = record { is_zero = false; local = λ _. none }

abbrev short : Interval
short = record {
  min_tokens = 0;
  max_tokens = some 1000;
  label = [];
  input = some (codes "0.001");
  output = none;
  cache_write = none;
  cache_write_1h = none;
  cache_read = none;
  per_request = none;
  input_multiplier = none;
  output_multiplier = none;
  write_multiplier = none;
  read_multiplier = none;
  sort_order = 0;
}

abbrev long : Interval
long = record short { min_tokens = 1000; max_tokens = none; input = some (codes "0.002") }

-- The intervals stand in the wrong order.
abbrev card : Card
card = record {
  fast_ratio = none;
  platform = "openai";
  models = codes "gpt-5" ∷ [];
  billing_mode = "token";
  input = none;
  output = some (codes "1e-2");
  cache_write = none;
  cache_write_1h = none;
  cache_read = none;
  image_input = none;
  image_output = none;
  per_request = none;
  fast = none;
  flex = none;
  reasoning = ("high", codes "1.5") ∷ [];
  intervals = long ∷ short ∷ [];
  time_pricing = none;
}

abbrev usage : Usage
usage = record {
  input_tokens = 2000;
  output_tokens = 10;
  write_tokens = 0;
  write_5m = 0;
  write_1h = 0;
  read_tokens = 0;
  image_input_tokens = 0;
  image_output_tokens = 0;
  image_count = 0;
  video_count = 0;
  video_seconds = 0;
  requests = 0;
  audio_units = no_audio;
}

abbrev no_prices : UnitPrices
no_prices = record {
  input_price = none;
  output_price = none;
  write_price = none;
  write_1h_price = none;
  read_price = none;
}

abbrev cost_or : Result Cost → ℕ
cost_or (ok c) = c.debit
cost_or (err e) = e.status

-- What the tests run.
runs : ℕ
unfolding is_digit read_digits starts_with_zero good_whole finish_exponent signed_exponent
    read_exponent finish_fraction read_fraction read_whole decimal magnitude rat_of rat fits_price
    valid_number valid_price positive_decimal valid_multiplier decimal_or two_digits clock_of
    clock_text clock_seconds ordered_span span_of checked_spans insert_span sort_spans spans_overlap
    validate_time second_of in_period period_at local_multiplier multiplier_at is_set good_max
    good_bounds overlaps_max overlaps_previous checked_interval clashes checked_intervals
    insert_interval sort_intervals overlaps_name checked_models known_mode known_multiplier
    checked_reasoning checked_prices set_time has_time validate_set_time with_defaults checked_card
    checked_cards validate_model_prices trim_all has_periods group_cards validate_group_prices
    below_max holds interval_at resolved_price or_price interval_or hour_price token_prices
    set_positive labelled_price tier_price request_price request_units audio_or request_total
    component write_split tells_writes write_part fast_multiplier tier_multiplier effort_multiplier
    image_input_price token_parts scale_parts sum_parts cost_of good_counts amounts calculate_price
    supported_platform concrete_model valid_model_pattern patterns_overlap pricing_name trim_space
    to_lower lower_rune is_space has_prefix trim_star ends_in_star has_control text_beq ◌*ℚ◌ ◌+ℚ◌
    round_to is_exact
runs = 0

-- 2000 tokens at the price of the long interval, and 10 at the one of the card, half as much again for the
-- effort: 6.15.
charged : cost_or (calculate_price card usage (codes "1") [] "high" [] now true) ≡ 615000000
unfolding runs
charged = refl

abbrev the_cost : Result Cost → Cost
the_cost (ok c) = c
the_cost (err e) = record {
  input_cost = 0;
  output_cost = 0;
  write_cost = 0;
  read_cost = 0;
  image_input_cost = 0;
  image_output_cost = 0;
  total = 0;
  actual = 0;
  debit = 0;
  total_value = zero_rat;
}

abbrev call : Result Cost
call = calculate_price card usage (codes "1") [] "high" [] now true

-- Three searches at the usual 5 for a thousand, at the rate 2, on top of 6.15: 6.15 + 0.03.
searched :
    cost_or (add_hosted_search_cost (the_cost call) none none (codes "2") 3 (codes "1")) ≡ 618000000
unfolding runs grok_search_protocol standalone_search_cost search_cost with_searches
    add_hosted_search_cost
searched = refl

validated : validate_model_prices now false (card ∷ []) ≡ ok (card ∷ [])
unfolding runs
validated = refl

long-holds : holds 2000 long ≡ true
unfolding runs
long-holds = refl

validate_model_prices-interval_at_example : interval_at 2000 card.intervals ≡ some long
validate_model_prices-interval_at_example =
    validate_model_prices-interval_at now false (card ∷ []) (card ∷ []) card 2000 long validated
      (inl refl) refl (inl refl) long-holds

write_split_bounds_example :
    (0 < 10 → (write_split 10 6 9).0 + (write_split 10 6 9).1 ≤ 10)
    × (0 < 10 → 10 < 6 + 9 → (write_split 10 6 9).0 + (write_split 10 6 9).1 ≡ 10)
    × (10 * 6 * 2 + (6 + 9) < 2 ^ 63)
    × ((write_split 10 6 9).0 ≤ max_count)
    × ((write_split 10 6 9).1 ≤ max_count)
write_split_bounds_example = write_split_bounds 10 6 9 (omega arith) (omega arith) (omega arith)
