-- ===== src/Settlement/Service.antt =====
-- The one writer of a settlement's status: packages/app/src/settlement-transition.service.ts, with
-- the row trigger that guards its writes: packages/db/migrations/0005_settlements.sql.
pub mod Defs
pub mod Apply
pub mod Outcomes
pub mod Rows
pub mod Writes
pub mod Lifecycle
pub mod Trail
pub mod History
pub mod Finality
pub mod Create
