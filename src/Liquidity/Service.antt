-- ===== src/Liquidity/Service.antt =====
-- packages/app/src/liquidity.service.ts
pub mod Defs
pub mod Reserve
pub mod Release
pub mod Repay
pub mod Advance
pub mod Facilities
pub mod Ledger
pub mod Posting
pub mod Consistency
pub mod Updating
pub mod Operations
pub mod Reserving
pub mod Granting
pub mod Headroom
pub mod Repaying
pub mod Steps
pub mod Projection
pub mod Agreement
pub mod Solvency
pub mod Limits
pub mod Within
pub mod Capacity
