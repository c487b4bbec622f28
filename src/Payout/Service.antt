-- ===== src/Payout/Service.antt =====
-- packages/app/src/payout.service.ts, with the dispatch of packages/app/src/settlement.service.ts.
pub mod Defs
pub mod Dispatch
pub mod Retry
pub mod Outcome
pub mod Apply
pub mod Moves
pub mod Moving
pub mod Order
pub mod Soundness
pub mod Steps
pub mod Inserting
pub mod Safety
pub mod Replay
