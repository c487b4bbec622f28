-- ===== src/Money/Fx.antt =====
-- Exchange rates and quote arithmetic: packages/money/src/fx.ts.
mod Defs
pub mod Division
pub mod Rounding
pub mod Adjoint
unfoldable pub use Defs.*
