-- ===== src/Settlement/Evaluate.antt =====
-- The evaluator of the settlement machine: `evaluateTransition` of transitions.ts, with
-- `legalPairs`, `transitionById` and `deferredCompanions`.
mod Defs
pub mod Table
pub mod Laws
pub mod Errors
unfoldable pub use Defs.*
