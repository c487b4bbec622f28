-- ===== src/Base/Result.antt =====
-- A function that may throw: its value, or the error with what it carries.
use mathlib.Core.Bool.{Bool, true, false}

pub data Result {ℓ κ} (E : Type κ) (A : Type ℓ) : Type (ℓ ⊔ κ) where
  ok : A → Result E A
  err : E → Result E A

module _ {ℓ κ} {E : Type κ} where
  infixl 5 ◌>>=◌ ◌>>◌
  abbrev pub ◌>>=◌ {μ} : {A : Type ℓ} {B : Type μ} → Result E A → (A → Result E B) → Result E B
  ok a >>= f = f a
  err e >>= f = err e

  abbrev pub ◌>>◌ {μ} : {A : Type ℓ} {B : Type μ} → Result E A → Result E B → Result E B
  m >> k = m >>= λ _. k

-- `if (b) throw e`
abbrev pub throw_if {κ} : {E : Type κ} → Bool → E → Result E (Unit {0})
throw_if true e = err e
throw_if false e = ok tt
