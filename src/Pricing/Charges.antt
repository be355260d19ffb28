-- ===== src/Pricing/Charges.antt =====
-- What a request costs: `interval`, `resolvedPrice`, `tokenPrices` and `calculatePrice` of
-- internal/app/pricing.go. A text that `FloatString(k)` writes is the number of its units of `10 ^ -k`.
pub mod Tokens
pub mod Requests
pub mod Parts
pub mod Totals
pub mod Tiers
pub mod Split
pub mod Missing
pub mod Proper
pub mod Rounding
