-- ===== src/Pricing/Charges/Tokens.antt =====
-- The prices of tokens: `interval`, `resolvedPrice` and `tokenPrices` of internal/app/pricing.go.
use Prim.Native.Nat.{max}
use lite_api.Common.{
  ℕ, ltb, leb, if◌then◌else◌, nat_eq, string_eq, text_eq, Bool, true, ◌&&◌, List, [], ◌∷◌, Option,
  none, some,
}
use lite_api.Common.Rat.{Rat, one_rat, ◌*ℚ◌}
use lite_api.Pricing.Numbers.{Price, rat, decimal_or}
use lite_api.Pricing.Cards.Intervals.{Card, Interval}

-- `AudioUnits`: none, a text that is no number or a negative one, or the units.
pub data Audio : Type 0 where
  no_audio : Audio
  bad_audio : Audio
  audio : Rat → Audio

-- The members of `priceUsage` that `calculatePrice` reads.
pub record Usage : Type 0 where
  pub input_tokens : ℕ
  pub output_tokens : ℕ
  pub write_tokens : ℕ
  pub write_5m : ℕ
  pub write_1h : ℕ
  pub read_tokens : ℕ
  pub image_input_tokens : ℕ
  pub image_output_tokens : ℕ
  pub image_count : ℕ
  pub video_count : ℕ
  pub video_seconds : ℕ
  pub requests : ℕ
  pub audio_units : Audio

-- `priceCost`.
pub record Cost : Type 0 where
  pub input_cost : ℕ
  pub output_cost : ℕ
  pub write_cost : ℕ
  pub read_cost : ℕ
  pub image_input_cost : ℕ
  pub image_output_cost : ℕ
  pub total : ℕ
  pub actual : ℕ
  pub debit : ℕ
  pub total_value : Rat

unfoldable pub below_max : ℕ → Option ℕ → Bool
below_max context none = true
below_max context (some max) = leb context max

-- The test of `interval` on one interval.
unfoldable pub holds : ℕ → Interval → Bool
holds context iv = ltb iv.min_tokens context && below_max context iv.max_tokens

-- `(*modelPrice).interval`.
unfoldable pub interval_at : ℕ → List Interval → Option Interval
interval_at context [] = none
interval_at context (iv ∷ ivs) = if holds context iv then some iv else interval_at context ivs

-- `resolvedPrice`.
unfoldable pub resolved_price : Price → Price → Price → Option Rat
resolved_price base (some n) multiplier = some (rat n)
resolved_price none none multiplier = none
resolved_price (some b) none multiplier = some (rat b *ℚ decimal_or multiplier one_rat)

unfoldable pub or_price : Price → Price → Price
or_price none other = other
or_price (some n) other = some n

-- The empty interval, which stands for none.
abbrev pub no_interval : Interval
no_interval = record {
  min_tokens = 0;
  max_tokens = none;
  label = [];
  input = none;
  output = none;
  cache_write = none;
  cache_write_1h = none;
  cache_read = none;
  per_request = none;
  input_multiplier = none;
  output_multiplier = none;
  write_multiplier = none;
  read_multiplier = none;
  sort_order = 0;
}

unfoldable pub interval_or : Option Interval → Interval
interval_or none = no_interval
interval_or (some iv) = iv

-- The price of a write for an hour.
unfoldable pub hour_price : Price → Price → Option Rat → Option Rat
hour_price (some write) none resolved = some (rat write)
hour_price none write_1h resolved = resolved
hour_price (some write) (some write_1h) resolved = resolved

pub record UnitPrices : Type 0 where
  pub input_price : Option Rat
  pub output_price : Option Rat
  pub write_price : Option Rat
  pub write_1h_price : Option Rat
  pub read_price : Option Rat

-- `tokenPrices`.
unfoldable pub token_prices : Card → Option Interval → UnitPrices
token_prices p selected =
    let iv = interval_or selected in
    record {
      input_price = resolved_price p.input iv.input iv.input_multiplier;
      output_price = resolved_price p.output iv.output iv.output_multiplier;
      write_price = resolved_price p.cache_write iv.cache_write iv.write_multiplier;
      write_1h_price = hour_price iv.cache_write iv.cache_write_1h (
          resolved_price (or_price p.cache_write_1h p.cache_write) iv.cache_write_1h
            iv.write_multiplier);
      read_price = resolved_price p.cache_read iv.cache_read iv.read_multiplier;
    }
