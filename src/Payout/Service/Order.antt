-- ===== src/Payout/Service/Order.antt =====
-- The attempts of a settlement, the newest first: numbered without a gap, and all but the newest
-- rejected.
use inrsettling.Base.{
  suc, ◌≡◌, ◌≢◌, refl, sym, ap, ◌∙◌, inl, inr, Bool, Bool-cases, some, List, [], ◌∷◌, arith,
}
use inrsettling.Base.Lists.{filter, length, All}
use mathlib.Core.Option.{some-injective}
use inrsettling.Payout.Attempt.{PayoutAttemptStatus}
use inrsettling.Payout.Service.Defs.{Attempt, latest}

abbrev pub IsGivenUp : Attempt → Type 0
IsGivenUp a = a.status ≡ PayoutAttemptStatus.rejected

abbrev pub InOrder : List Attempt → Type 0
InOrder [] = Unit
InOrder (a ∷ rest) = (a.attempt_number ≡ suc (length rest)) × All IsGivenUp rest × InOrder rest

-- No id is taken twice.
abbrev pub IsDistinct : List Attempt → Type 0
IsDistinct [] = Unit
IsDistinct (a ∷ rest) = All (λ b. b.id ≢ a.id) rest × IsDistinct rest

pub latest-head :
    (a : Attempt) (rest : List Attempt) → InOrder (a ∷ rest) → latest (a ∷ rest) ≡ some a
unfolding latest
latest-head a [] h = refl
latest-head a (b ∷ bs) h = let (number, up, order) = h in ground (arith, latest-head b bs order)

none_some : {a : Attempt} → latest [] ≢ some a
unfolding latest
none_some e = cc

-- The latest of attempts in order is the first.
pub latest-InOrder :
    (xs : List Attempt) {a : Attempt}
    → InOrder xs
    → latest xs ≡ some a
    → (rest : List Attempt) × (xs ≡ a ∷ rest)
latest-InOrder [] h e = absurd (none_some e)
latest-InOrder (x ∷ xs) h e =
    (xs, ap (λ y. y ∷ xs) (some-injective _ _ (sym (latest-head x xs h) ∙ e)))

module _ (p : Attempt → Bool) where
  All-filter_kept {κ} : (P : Attempt → Type κ) (xs : List Attempt) → All P xs → All P (filter p xs)
  All-filter_kept P [] h = tt
  All-filter_kept P (x ∷ xs) h = elim (Bool-cases (p x)) [
    | inl y ↦ rw y (h.0, All-filter_kept P xs h.1)
    | inr n ↦ rw n (All-filter_kept P xs h.1)
  ]

  pub filter-IsDistinct : (xs : List Attempt) → IsDistinct xs → IsDistinct (filter p xs)
  filter-IsDistinct [] h = tt
  filter-IsDistinct (x ∷ xs) h = elim (Bool-cases (p x)) [
    | inl y ↦ rw y (All-filter_kept (λ b. b.id ≢ x.id) xs h.0, filter-IsDistinct xs h.1)
    | inr n ↦ rw n (filter-IsDistinct xs h.1)
  ]
