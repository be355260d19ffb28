-- ===== src/Pricing/Charges/Missing.antt =====
-- When the tokens of a request can be charged for.
use Prim.Native.Nat.{min}
use lite_api.Common.{
  ℕ, ◌-◌, ltb, nat_eq, ◌≡◌, ◌⊎◌, Bool, true, false, ◌&&◌, ◌||◌, Option, some, Text, ◌<◌,
}
use lite_api.Common.Errors.{ApiError, Result, ok, err, bad}
use lite_api.Common.Rat.{Rat}
use lite_api.Pricing.Cards.Intervals.{Card}
use lite_api.Pricing.Charges.Tokens.{Usage, UnitPrices}
use lite_api.Pricing.Numbers.{Price, rat}
use lite_api.Pricing.Charges.Parts.{write_split, tells_writes}

abbrev pub missing : ApiError
missing = bad "price unavailable for consumed units"

-- Nothing is used, or what is used has a price.
abbrev pub IsPriced : ℕ → Option Rat → Type 0
IsPriced count price = (count ≡ 0) ⊎ ((r : Rat) × (price ≡ some r))

-- The call succeeds and `P` holds, or it fails for a missing price and `P` does not.
abbrev pub IsCharged : {A : Type 0} → Result A → Type 0 → Type 0
IsCharged {A} call P = (((a : A) × (call ≡ ok a)) × P) ⊎ ((call ≡ err missing) × ¬ P)

-- The price that the written tokens need: one for each kind if the card tells the kinds apart and the
-- usage names any, and else the one.
abbrev pub HasWritePrices : Bool → ℕ → ℕ × ℕ → UnitPrices → Type 0
HasWritePrices true written (five, hour) prices =
    IsPriced five prices.write_price × IsPriced hour prices.write_1h_price
HasWritePrices false written (five, hour) prices = IsPriced written prices.write_price

-- Image input is priced by the card, with more than nothing, or as input.
abbrev pub IsImagePriced : ℕ → Price → Option Rat → Type 0
IsImagePriced count own input =
    (count ≡ 0) ⊎ ((n : Text) × (own ≡ some n) × (0 < (rat n).num)) ⊎ ((r : Rat) × (input ≡ some r))

abbrev pub HasAllPrices : Card → Usage → UnitPrices → Type 0
HasAllPrices p u prices =
    let images = min u.image_input_tokens u.input_tokens in
    let split = write_split u.write_tokens u.write_5m u.write_1h in
    IsPriced (u.input_tokens - images) prices.input_price
    × (IsPriced (u.output_tokens - u.image_output_tokens) prices.output_price
        × (IsPriced u.read_tokens prices.read_price
            × (IsImagePriced images p.image_input prices.input_price
                × HasWritePrices (tells_writes p && (ltb 0 split.0 || ltb 0 split.1)) u.write_tokens
                    split prices)))
