-- ===== src/Pricing/Cards/Intervals.antt =====
-- Price cards and their intervals: `modelPrice`, `priceInterval` and the test of the intervals in
-- `validateModelPrices` of internal/app/pricing.go.
use lite_api.Common.{
  ℕ, ltb, leb, if◌then◌else◌, ◌==◌, nat_eq, string_eq, text_eq, Text, String, Bool, true, false,
  not, ◌&&◌, ◌||◌, List, [], ◌∷◌, Option, none, some, length, any, contains,
}
use lite_api.Common.Strings.{to_lower}
use lite_api.Common.Errors.{Result, ok, ◌>>◌, fail_if, bad}
use lite_api.Common.Rat.{Rat}
use lite_api.Pricing.Numbers.{Price, valid_price, valid_multiplier}
use lite_api.Pricing.Periods.{TimePrice}

-- The prices that an interval may set.
pub record Interval : Type 0 where
  pub min_tokens : ℕ
  pub max_tokens : Option ℕ
  pub label : Text
  pub input : Price
  pub output : Price
  pub cache_write : Price
  pub cache_write_1h : Price
  pub cache_read : Price
  pub per_request : Price
  pub input_multiplier : Price
  pub output_multiplier : Price
  pub write_multiplier : Price
  pub read_multiplier : Price
  pub sort_order : ℕ

pub record Card : Type 0 where
  pub fast_ratio : Option Rat
  pub platform : String
  pub models : List Text
  pub billing_mode : String
  pub input : Price
  pub output : Price
  pub cache_write : Price
  pub cache_write_1h : Price
  pub cache_read : Price
  pub image_input : Price
  pub image_output : Price
  pub per_request : Price
  pub fast : Price
  pub flex : Price
  pub reasoning : List (String × Text)
  pub intervals : List Interval
  pub time_pricing : Option TimePrice

unfoldable pub is_set : Price → Bool
is_set none = false
is_set (some n) = true

-- `2147483647`, the largest count.
abbrev pub max_count : ℕ
max_count = 2147483647

-- The bound of an interval, if it has one: above its minimum and a count.
unfoldable pub good_max : ℕ → Option ℕ → Bool
good_max min none = true
good_max min (some max) = ltb min max && leb max max_count

unfoldable pub good_bounds : Interval → Bool
good_bounds iv =
    leb iv.min_tokens max_count
    && good_max iv.min_tokens iv.max_tokens
    && leb (length iv.label) 50
    && leb iv.sort_order 1000000

abbrev pub interval_prices : Interval → List Price
interval_prices iv =
    iv.input ∷ iv.output ∷ iv.cache_write ∷ iv.cache_write_1h ∷ iv.cache_read ∷ iv.per_request ∷ []

abbrev pub interval_multipliers : Interval → List Price
interval_multipliers iv =
    iv.input_multiplier ∷ iv.output_multiplier ∷ iv.write_multiplier ∷ iv.read_multiplier ∷ []

-- `j > 0 && (sorted[j-1].Max == nil || *sorted[j-1].Max > iv.Min)`.
unfoldable pub overlaps_max : Option ℕ → ℕ → Bool
overlaps_max none min = true
overlaps_max (some max) min = ltb min max

unfoldable pub overlaps_previous : Option Interval → Interval → Bool
overlaps_previous none iv = false
overlaps_previous (some previous) iv = overlaps_max previous.max_tokens iv.min_tokens

-- The tests of one interval that do not look at the others.
unfoldable pub checked_interval : Bool → Interval → Result (Unit {0})
checked_interval stats iv = do
  fail_if (not (good_bounds iv)) (bad "invalid pricing interval")
  fail_if (any (λ n. not (valid_price n 8 12)) (interval_prices iv)) (bad "invalid interval price")
  fail_if (any (λ n. not (valid_multiplier n) || (stats && is_set n)) (interval_multipliers iv))
      (bad "invalid interval multiplier")
  fail_if (not (any is_set (interval_prices iv) || any is_set (interval_multipliers iv)))
      (bad "interval requires a price or multiplier")
  ok tt

-- The test against the interval before, or against the labels seen.
unfoldable pub clashes : Bool → Option Interval → List Text → Interval → Bool
clashes by_tokens previous labels iv =
    if by_tokens
    then overlaps_previous previous iv
    else not (iv.label == []) && contains labels (to_lower iv.label)

abbrev pub clash_error : Bool → String
clash_error by_tokens =
    if by_tokens then "pricing intervals overlap" else "duplicate pricing tier label"

-- The loop over the sorted intervals.
unfoldable pub checked_intervals :
    Bool → Bool → Option Interval → List Text → List Interval → Result (Unit {0})
checked_intervals stats by_tokens previous labels [] = ok tt
checked_intervals stats by_tokens previous labels (iv ∷ ivs) = do
  checked_interval stats iv
  fail_if (clashes by_tokens previous labels iv) (bad (clash_error by_tokens))
  checked_intervals stats by_tokens (some iv)
      (if iv.label == [] then labels else to_lower iv.label ∷ labels) ivs

-- `sort.Slice` by the minimum.
unfoldable pub insert_interval : Interval → List Interval → List Interval
insert_interval iv [] = iv ∷ []
insert_interval iv (j ∷ js) =
    if ltb j.min_tokens iv.min_tokens then j ∷ insert_interval iv js else iv ∷ j ∷ js

unfoldable pub sort_intervals : List Interval → List Interval
sort_intervals [] = []
sort_intervals (iv ∷ ivs) = insert_interval iv (sort_intervals ivs)
