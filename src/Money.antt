-- ===== src/Money.antt =====
-- Exact money and exchange rates: packages/money/src/index.ts and packages/money/src/fx.ts.
pub mod Amount
pub mod Fx
mod Tests
