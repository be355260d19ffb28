-- ===== src/Pricing/Cards.antt =====
-- Price cards and their validation: `modelPrice`, `priceInterval`, `validateModelPrices` and
-- `validateGroupPrices` of internal/app/pricing.go. The map of multipliers is a list of its entries.
pub mod Intervals
pub mod Validation
