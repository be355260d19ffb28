-- ===== src/Pricing/Cards/Validation.antt =====
-- The validation of cards: `validateModelPrices` and `validateGroupPrices` of internal/app/pricing.go.
use lite_api.Common.{
  ℕ, ◌+◌, ltb, if◌then◌else◌, ◌==◌, nat_eq, string_eq, text_eq, Text, String, Bool, true, false,
  not, ◌&&◌, ◌||◌, List, [], ◌∷◌, Option, none, some, length, any,
}
use lite_api.Common.Strings.{trim_space}
use lite_api.Common.Errors.{Result, ok, ◌>>=◌, ◌>>◌, fail_if, bad}
use lite_api.Models.{supported_platform, valid_model_pattern, patterns_overlap, pricing_name}
use lite_api.Pricing.Numbers.{valid_price, valid_multiplier, positive_decimal}
use lite_api.Pricing.Periods.{TimePrice, Moment, validate_time}
use lite_api.Pricing.Cards.Intervals.{Card, is_set, checked_intervals, sort_intervals}

-- The names of the platform's models that stand on earlier cards.
abbrev pub Names : Type 0
Names = List (String × Text)

unfoldable pub overlaps_name : Names → String → Text → Bool
overlaps_name names platform n = any (λ e. e.0 == platform && patterns_overlap n e.1) names

-- The loop over the models of a card.
unfoldable pub checked_models : Names → String → List Text → Result Names
checked_models names platform [] = ok names
checked_models names platform (m ∷ ms) = do
  fail_if (not (valid_model_pattern m)) (bad "invalid model pattern")
  fail_if (overlaps_name names platform (pricing_name m)) (bad "overlapping model pricing patterns")
  checked_models ((platform, pricing_name m) ∷ names) platform ms

unfoldable pub known_mode : String → Bool
known_mode mode = mode == "token" || mode == "per_request" || mode == "image" || mode == "video"

unfoldable pub known_multiplier : String → Bool
known_multiplier effort =
    effort == "none"
    || effort == "minimal"
    || effort == "low"
    || effort == "medium"
    || effort == "high"
    || effort == "xhigh"
    || effort == "max"

-- The loop over the multipliers of the efforts.
unfoldable pub checked_reasoning : List (String × Text) → Result (Unit {0})
checked_reasoning [] = ok tt
checked_reasoning ((effort, n) ∷ rest) = do
  fail_if (not (known_multiplier effort)) (bad "invalid reasoning effort")
  fail_if (not (positive_decimal n 6 6)) (bad "invalid reasoning multiplier")
  checked_reasoning rest

-- The prices of a card; `stats` is `accountStats`.
unfoldable pub checked_prices : Bool → Card → Result (Unit {0})
checked_prices stats p = do
  fail_if
      (any (λ n. not (valid_price n (if stats then 10 else 8) (if stats then 10 else 12)))
        (p.input ∷ p.output ∷ p.cache_write ∷ p.cache_read ∷ []))
      (bad "invalid token price")
  fail_if
      (not (valid_price p.cache_write_1h 8 12)
        || not (valid_price p.image_input 8 12)
        || not (valid_price p.image_output (if stats then 10 else 12) (if stats then 10 else 8))
        || not (valid_price p.per_request 10 10)
        || not (valid_multiplier p.fast)
        || not (valid_multiplier p.flex))
      (bad "invalid price or multiplier")
  checked_reasoning p.reasoning

-- A policy without periods is none.
unfoldable pub set_time : Option TimePrice → Option TimePrice
set_time none = none
set_time (some t) = if length t.periods == 0 then none else some t

unfoldable pub has_time : Option TimePrice → Bool
has_time none = false
has_time (some t) = true

unfoldable pub validate_set_time : Moment → Option TimePrice → Result (Unit {0})
validate_set_time at none = ok tt
validate_set_time at (some t) = validate_time at t

-- The defaults of a card.
unfoldable pub with_defaults : Card → Card
with_defaults p = record p {
  platform = if p.platform == "" then "anthropic" else p.platform;
  billing_mode = if p.billing_mode == "" then "token" else p.billing_mode;
}

-- One card, its defaults filled in: it with the names taken so far.
unfoldable pub checked_card : Moment → Bool → Names → Card → Result (Card × Names)
checked_card at stats names raw = do
  let p = with_defaults raw
  fail_if (not (supported_platform p.platform)) (bad "unsupported pricing platform")
  fail_if (not (known_mode p.billing_mode)) (bad "invalid billing mode")
  fail_if (length p.models == 0 || ltb 100 (length p.models))
      (bad "pricing requires 1 to 100 models")
  taken ← checked_models names p.platform p.models
  checked_prices stats p
  fail_if (not (p.billing_mode == "token") && not (is_set p.per_request) && length p.intervals == 0)
      (bad "per-request and image billing require a price")
  let time = set_time p.time_pricing
  fail_if (has_time time && (not (p.billing_mode == "token") || stats))
      (bad "time pricing only applies to channel token prices")
  validate_set_time at time
  fail_if (stats && (is_set p.fast || is_set p.flex || is_set p.image_input))
      (bad "account stats pricing does not support service tier or image input overrides")
  fail_if (ltb 100 (length p.intervals)) (bad "too many pricing intervals")
  checked_intervals stats (p.billing_mode == "token") none [] (sort_intervals p.intervals)
  ok (record p { time_pricing = time }, taken)

-- The loop over the cards, with the number of models and the names so far.
unfoldable pub checked_cards : Moment → Bool → ℕ → Names → List Card → Result (List Card)
checked_cards at stats total names [] = ok []
checked_cards at stats total names (p ∷ ps) = do
  fail_if (ltb 2000 (total + length p.models)) (bad "too many pricing model patterns")
  first ← checked_card at stats names p
  rest ← checked_cards at stats (total + length p.models) first.1 ps
  ok (first.0 ∷ rest)

-- `validateModelPrices`. The moment stands for the time zones that the program knows.
unfoldable pub validate_model_prices : Moment → Bool → List Card → Result (List Card)
validate_model_prices at stats prices = do
  fail_if (ltb 1000 (length prices)) (bad "too many pricing entries")
  checked_cards at stats 0 [] prices

unfoldable pub trim_all : List Text → List Text
trim_all [] = []
trim_all (m ∷ ms) = trim_space m ∷ trim_all ms

-- `p.TimePricing != nil && len(p.TimePricing.Periods) > 0`.
unfoldable pub has_periods : Option TimePrice → Bool
has_periods none = false
has_periods (some t) = ltb 0 (length t.periods)

-- The loop of `validateGroupPrices`.
unfoldable pub group_cards : String → List Card → Result (List Card)
group_cards group_platform [] = ok []
group_cards group_platform (p ∷ ps) = do
  fail_if (has_periods p.time_pricing) (bad "group model pricing does not support time pricing")
  rest ← group_cards group_platform ps
  ok (
      record p {
        platform = if p.platform == "" then group_platform else p.platform;
        models = trim_all p.models;
      }
      ∷ rest)

-- `validateGroupPrices`.
unfoldable pub validate_group_prices : Moment → String → List Card → Result (List Card)
validate_group_prices at group_platform prices = do
  cards ← group_cards group_platform prices
  validate_model_prices at false cards
