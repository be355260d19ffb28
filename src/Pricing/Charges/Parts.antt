-- ===== src/Pricing/Charges/Parts.antt =====
-- What the tokens of a request cost: part of `calculatePrice` of internal/app/pricing.go.
use Prim.Native.Nat.{min}
use lite_api.Common.{
  ℕ, ◌+◌, ◌-◌, ◌*◌, ◌/◌, ltb, if◌then◌else◌, ◌==◌, nat_eq, string_eq, text_eq, Text, codes, String,
  Bool, ◌&&◌, ◌||◌, List, [], ◌∷◌, Option, none, some, any,
}
use lite_api.Common.Errors.{Result, ok, err, ◌>>=◌, bad}
use lite_api.Common.Rat.{Rat, whole, zero_rat, one_rat, ◌*ℚ◌, ◌+ℚ◌, is_positive}
use lite_api.Pricing.Numbers.{Price, rat, decimal_or}
use lite_api.Pricing.Cards.Intervals.{Card, is_set}
use lite_api.Pricing.Charges.Tokens.{Usage, UnitPrices}

-- `component`: what a number of units costs.
unfoldable pub component : ℕ → Option Rat → Result Rat
component count none =
    if count == 0 then ok zero_rat else err (bad "price unavailable for consumed units")
component count (some price) = if count == 0 then ok zero_rat else ok (whole count *ℚ price)

-- How the written tokens split into the ones kept for five minutes and for an hour.
unfoldable pub write_split : ℕ → ℕ → ℕ → ℕ × ℕ
write_split written five hour =
    if ltb 0 written && ltb written (five + hour)
    then (let scaled = (written * five * 2 + (five + hour)) / (2 * (five + hour)) in
        (scaled, written - scaled))
    else (five, hour)

-- Whether the card tells the two kinds of writes apart.
unfoldable pub tells_writes : Card → Bool
tells_writes p = is_set p.cache_write_1h || any (λ iv. is_set iv.cache_write_1h) p.intervals

-- The cost of the written tokens.
unfoldable pub write_part : Bool → ℕ → ℕ × ℕ → UnitPrices → Result Rat
write_part splits written (five, hour) prices =
    if splits && (ltb 0 five || ltb 0 hour)
    then (do
      five_cost ← component five prices.write_price
      hour_cost ← component hour prices.write_1h_price
      ok (five_cost +ℚ hour_cost))
    else component written prices.write_price

unfoldable pub fast_multiplier : Price → Option Rat → Rat
fast_multiplier none (some ratio) = ratio
fast_multiplier none none = whole 2
fast_multiplier (some n) ratio = rat n

-- The multiplier of the service tier.
unfoldable pub tier_multiplier : Card → Text → Rat
tier_multiplier p tier =
    if tier == codes "priority" || tier == codes "fast"
    then fast_multiplier p.fast p.fast_ratio
    else if tier == codes "ultrafast"
    then whole 2
    else if tier == codes "flex"
    then decimal_or p.flex (record { num = 1; den = 2 })
    else one_rat

-- The multiplier of the effort.
unfoldable pub effort_multiplier : List (String × Text) → String → Rat
effort_multiplier [] effort = one_rat
effort_multiplier ((e, n) ∷ rest) effort =
    if e == effort then rat n else effort_multiplier rest effort

pub record Parts : Type 0 where
  pub input_part : Rat
  pub output_part : Rat
  pub write_part_of : Rat
  pub read_part : Rat
  pub image_input_part : Rat
  pub image_output_part : Rat

abbrev pub no_parts : Parts
no_parts = record {
  input_part = zero_rat;
  output_part = zero_rat;
  write_part_of = zero_rat;
  read_part = zero_rat;
  image_input_part = zero_rat;
  image_output_part = zero_rat;
}

unfoldable pub image_input_price : Price → Option Rat → Option Rat
image_input_price none fallback = fallback
image_input_price (some n) fallback = if is_positive (rat n) then some (rat n) else fallback

-- The costs of the tokens, before the multiplier.
unfoldable pub token_parts : Card → Usage → UnitPrices → Result Parts
token_parts p u prices = do
  let images = min u.image_input_tokens u.input_tokens
  input ← component (u.input_tokens - images) prices.input_price
  output ← component (u.output_tokens - u.image_output_tokens) prices.output_price
  read ← component u.read_tokens prices.read_price
  image_in ← component images (image_input_price p.image_input prices.input_price)
  image_out ← component u.image_output_tokens (some (decimal_or p.image_output zero_rat))
  written ←
      write_part (tells_writes p) u.write_tokens (write_split u.write_tokens u.write_5m u.write_1h)
        prices
  ok (record {
    input_part = input;
    output_part = output;
    write_part_of = written;
    read_part = read;
    image_input_part = image_in;
    image_output_part = image_out;
  })

unfoldable pub scale_parts : Rat → Parts → Parts
scale_parts m ps = record {
  input_part = ps.input_part *ℚ m;
  output_part = ps.output_part *ℚ m;
  write_part_of = ps.write_part_of *ℚ m;
  read_part = ps.read_part *ℚ m;
  image_input_part = ps.image_input_part *ℚ m;
  image_output_part = ps.image_output_part *ℚ m;
}

unfoldable pub sum_parts : Parts → Rat
sum_parts ps =
    zero_rat +ℚ ps.input_part +ℚ ps.output_part +ℚ ps.write_part_of +ℚ ps.read_part
    +ℚ ps.image_input_part +ℚ ps.image_output_part
