-- ===== src/Payout.antt =====
-- The payout of a settlement: its attempts and the service that moves them.
pub mod Attempt
pub mod Allocation
pub mod Keys
pub mod Service
mod Tests
