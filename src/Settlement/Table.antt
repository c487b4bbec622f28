-- ===== src/Settlement/Table.antt =====
-- The normative table of the settlement machine, in the order of transitions.ts.
mod Preparation
mod Execution
mod Resolution
unfoldable pub use Preparation.*
unfoldable pub use Execution.*
unfoldable pub use Resolution.*
use inrsettling.Base.{List, [], ◌∷◌}
use inrsettling.Settlement.Vocabulary.{Transition}

unfoldable pub transitions : List Transition
unfolding t01 t02 t03 t04 t05 t06 t07 t08 t09 t10 t11 t12 t13 t14 t15 t16 t17 t18 t19 t20 t21 t22
    t23 t24 t25 t26 t27 t28 t29 t30
transitions =
    t01 ∷ t02 ∷ t03 ∷ t04 ∷ t05 ∷ t06 ∷ t07 ∷ t08 ∷ t09 ∷ t10 ∷ t11 ∷ t12 ∷ t13 ∷ t14 ∷ t15 ∷ t16
    ∷ t17 ∷ t18 ∷ t19 ∷ t20 ∷ t21 ∷ t22 ∷ t23 ∷ t24 ∷ t25 ∷ t26 ∷ t27 ∷ t28 ∷ t29 ∷ t30 ∷ []
