-- ===== src/Liquidity.antt =====
-- The liquidity facility: its ledger, its reservations, drawdowns and repayments.
pub mod Facility
pub mod Reservation
pub mod Drawdown
pub mod Repayment
pub mod Service
mod Tests
