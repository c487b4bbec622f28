-- ===== src/Settlement.antt =====
-- The settlement: its statuses, its transition table and the service that applies it.
pub mod Status
pub mod Vocabulary
pub mod Table
pub mod Evaluate
pub mod Exceptions
pub mod Projection
pub mod Service
mod Tests
