-- ===== src/Reconciliation.antt =====
-- Reconciliation and finality: packages/domain/src/reconciliation.
pub mod Machine
pub mod Finality
mod Tests
