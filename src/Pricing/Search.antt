-- ===== src/Pricing/Search.antt =====
-- The costs of searches: searchCost and standaloneSearchCost of internal/app/settlement.go, and
-- addHostedSearchCost of internal/app/grok_hosted_search.go.
use lite_api.Common.{
  ℕ, ◌*◌, ltb, if◌then◌else◌, ◌≡◌, Text, codes, String, Bool, true, false, not, ◌||◌, arith,
}
use lite_api.Common.Errors.{Result, ok, ◌>>=◌, ◌>>◌, fail_if, bad, >>=-eq-ok, fail_if-eq-ok}
use lite_api.Common.Rat.{Rat, whole, ◌*ℚ◌, ◌+ℚ◌, round_to}
use lite_api.GroupFallback.{grok_search_protocol}
use lite_api.Pricing.Numbers.{Price, valid_number, valid_price, rat, decimal_or}
use lite_api.Pricing.Charges.Tokens.{Cost}
use lite_api.Pricing.Charges.Parts.{no_parts}
use lite_api.Pricing.Charges.Totals.{cost_of}

-- `Quo` by 1000.
abbrev per_thousand_of : Rat → Rat
per_thousand_of r = record { num = r.num; den = r.den * 1000 }

-- `standaloneSearchCost`.
unfoldable pub standalone_search_cost : Price → Text → Bool → Result Cost
standalone_search_cost price rate per_thousand = do
  fail_if (not (valid_price price 12 8) || not (valid_number rate 6 4))
      (bad "invalid search price or multiplier")
  let each = decimal_or price (rat (codes (if per_thousand then "5" else "0.01")))
  ok (cost_of no_parts (if per_thousand then per_thousand_of each else each) (rat rate))

-- `searchCost` of a group, with its two prices and its rate.
unfoldable pub search_cost : Price → Price → Text → String → Result Cost
search_cost search_price web_search_price rate protocol =
    if grok_search_protocol protocol
    then standalone_search_cost search_price rate true
    else standalone_search_cost web_search_price rate false

-- The cost with the searches added, of which the customer pays the rate of the group.
unfoldable pub with_searches : Cost → ℕ → Rat → Rat → Rat → Cost
with_searches cost calls search base_rate rate =
    let searches = search *ℚ whole calls in
    let total = cost.total_value +ℚ searches in
    let actual = cost.total_value *ℚ base_rate +ℚ searches *ℚ rate in
    record cost {
      total_value = total;
      total = round_to 10 total;
      actual = round_to 10 actual;
      debit = round_to 8 actual;
    }

-- `addHostedSearchCost`; the count of the calls is not negative.
unfoldable pub add_hosted_search_cost : Cost → Price → Price → Text → ℕ → Text → Result Cost
add_hosted_search_cost cost search_price web_search_price rate calls base_rate = do
  fail_if (ltb 10000 calls) (bad "invalid search call count")
  search ← search_cost search_price web_search_price rate "web_search"
  ok (with_searches cost calls search.total_value (rat base_rate) (rat rate))

answer-total : {a b : Cost} → ok a ≡ ok b → b.total_value ≡ a.total_value
answer-total h = ground arith

-- Where searches are charged, there are at most 10000, and what the request costs is what it did cost and the
-- price of one search for each.
pub add_hosted_search_cost-total :
    (cost : Cost) (search_price web_search_price : Price) (rate : Text) (calls : ℕ)
    (base_rate : Text) {charged : Cost}
    → add_hosted_search_cost cost search_price web_search_price rate calls base_rate ≡ ok charged
    → (search : Cost) × (search_cost search_price web_search_price rate "web_search" ≡ ok search)
      × (ltb 10000 calls ≡ false)
      × (charged.total_value ≡ cost.total_value +ℚ search.total_value *ℚ whole calls)
unfolding add_hosted_search_cost with_searches
add_hosted_search_cost-total cost search_price web_search_price rate calls base_rate h =
    let (few, h1) = fail_if-eq-ok _ _ _ h in
    let (search, e, k) = >>=-eq-ok _ _ h1 in (search, e, few, answer-total k)
