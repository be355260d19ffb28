-- ===== src/Selection.antt =====
-- The choice of an account for a call: `chooseAccount` of internal/app/gateway.go, with the profit
-- control of profit_control.go and what an account allows, of upstream.go, video_tasks.go,
-- response_files.go and responses.go. The load of an account is compared as an exact fraction.
pub mod Profit
pub mod Matching
pub mod Order
pub mod Loop
pub mod Slot
pub mod Preferred
mod Tests
