-- ===== src/Pricing.antt =====
-- Price cards and charges, internal/app/pricing.go: the numbers of a card, its validation, the tier of
-- a request and what the request costs.
pub mod Numbers
pub mod Periods
pub mod Cards
pub mod Charges
pub mod Search
mod Tests
