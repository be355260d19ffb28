-- ===== src/Settlement.antt =====
-- The settlement of a request: fingerprint, saveReceipt, recoverReceipts and applyReceipt of
-- internal/app/settlement.go, with cleanUpstreamRequestID of upstream.go. The tables are functions from
-- their keys; a transaction that fails changes nothing. Amounts of money are numbers of `10 ^ -8`, and
-- those of `Cost` as in Pricing. An error that is no `apiError` has the status 500.
pub mod Receipts
pub mod Tables
pub mod Calls
pub mod Histories
pub mod Ledger
pub mod Once
pub mod Payable
pub mod Recovery
mod Tests
