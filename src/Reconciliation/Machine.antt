-- ===== src/Reconciliation/Machine.antt =====
-- The machine of a reconciliation, and the comparison that drives it:
-- packages/domain/src/reconciliation/reconciliation.ts.
use Prim.Native.String.{String}
use inrsettling.Base.{
  ◌≡◌, ◌↔◌, refl, ap, inl, inr, Bool, true, false, ◌&&◌, not, Bool-cases, Option, none, some, List,
  [], ◌∷◌, arith, if◌then◌else◌, same, same_iff, Option-cases,
}
use inrsettling.Base.Lists.{find, includes}
use inrsettling.Base.Int.{ℤ, pos, ◌-ℤ◌, ltb_ℤ, eqb_ℤ, eq_of_parts, -ℤ_parts, pos_part, neg_part}
use mathlib.Core.Option.{some-injective}
use mathlib.Core.Path.{ap₂}
use inrsettling.Money.Amount.{Currency, Currency-discrete, same_currency, Money, money}

pub data ReconciliationStatus : Type 0 where
  pending matched mismatch manual_review : ReconciliationStatus

unfoldable pub ReconciliationStatus-discrete : Discrete ReconciliationStatus
ReconciliationStatus-discrete = hlevel

pub data ReconciliationTrigger : Type 0 where
  begin observed_matching observed_differing observation_overdue : ReconciliationTrigger
  escalate resolve_matched resolve_unresolvable : ReconciliationTrigger

unfoldable pub ReconciliationTrigger-discrete : Discrete ReconciliationTrigger
ReconciliationTrigger-discrete = hlevel

pub data ReconciliationTransitionId : Type 0 where
  r01 r02 r03 r04 r05 r06 r07 : ReconciliationTransitionId

-- The `guard` column is prose and is left out; an absent flag is false.
pub record ReconciliationTransition : Type 0 where
  pub id : ReconciliationTransitionId
  pub from : List ReconciliationStatus
  pub trigger : ReconciliationTrigger
  pub to : ReconciliationStatus
  pub requires_attribution : Bool
  pub requires_compensation_decision : Bool

abbrev row :
    ReconciliationTransitionId
    → List ReconciliationStatus
    → ReconciliationTrigger
    → ReconciliationStatus
    → Bool
    → Bool
    → ReconciliationTransition
row id from trigger to attributed compensated = record {
  id = id;
  from = from;
  trigger = trigger;
  to = to;
  requires_attribution = attributed;
  requires_compensation_decision = compensated;
}

unfoldable pub reconciliation_transitions : List ReconciliationTransition
reconciliation_transitions =
    row r01 [] begin pending false false
    ∷ row r02 (pending ∷ []) observed_matching matched false false
    ∷ row r03 (pending ∷ []) observed_differing mismatch false false
    ∷ row r04 (pending ∷ []) observation_overdue manual_review false false
    ∷ row r05 (mismatch ∷ []) escalate manual_review false false
    ∷ row r06 (manual_review ∷ []) resolve_matched matched true true
    ∷ row r07 (manual_review ∷ []) resolve_unresolvable mismatch true false
    ∷ []

-- `from === null ? t.from.length === 0 : t.from.includes(from)`
unfoldable pub reconciliation_from_accepts :
    Option ReconciliationStatus → List ReconciliationStatus → Bool
unfolding ReconciliationStatus-discrete
reconciliation_from_accepts none [] = true
reconciliation_from_accepts none (_ ∷ _) = false
reconciliation_from_accepts (some s) from = includes ReconciliationStatus-discrete from s

-- The row that is taken; `none` is the refusal `invalid_transition`.
unfoldable pub evaluate_reconciliation_transition :
    Option ReconciliationStatus → ReconciliationTrigger → Option ReconciliationTransition
unfolding reconciliation_from_accepts reconciliation_transitions ReconciliationTrigger-discrete
evaluate_reconciliation_transition from trigger =
    find
      (λ t.
        same ReconciliationTrigger-discrete t.trigger trigger
        && reconciliation_from_accepts from t.from)
      reconciliation_transitions

pub data ObservationSource : Type 0 where
  trusted_provider_event authoritative_status_pull : ObservationSource

pub record Observation : Type 0 where
  pub source : ObservationSource
  pub observed_amount : Option Money
  pub observed_at : String

pub data Why : Type 0 where
  short over currency_mismatch no_amount_observed : Why

pub data ComparisonVerdict : Type 0 where
  matching : Money → ComparisonVerdict
  differing : Money → Why → ComparisonVerdict

-- The field `trigger` of a verdict, and its `delta`.
unfoldable pub trigger_of : ComparisonVerdict → ReconciliationTrigger
trigger_of (matching _) = observed_matching
trigger_of (differing _ _) = observed_differing

unfoldable pub delta_of : ComparisonVerdict → Money
delta_of (matching delta) = delta
delta_of (differing delta _) = delta

-- Observed minus expected, in one currency.
unfoldable pub compare_amounts : Money → Money → ComparisonVerdict
compare_amounts expected observed =
    let minor = observed.minor_units -ℤ expected.minor_units in
    let delta = money expected.currency minor in
    if eqb_ℤ minor (pos 0)
    then matching delta
    else differing delta (if ltb_ℤ minor (pos 0) then short else over)

unfoldable pub compare_observation : Money → Observation → ComparisonVerdict
unfolding compare_amounts Currency-discrete
compare_observation expected observation = elim observation.observed_amount [
  | none ↦ differing (money expected.currency (pos 0)) no_amount_observed
  | some observed ↦
      if not (same_currency observed.currency expected.currency)
      then differing (money expected.currency (pos 0)) currency_mismatch
      else compare_amounts expected observed
]

unfoldable pub satisfies_f5 : ReconciliationStatus → ℤ → Bool
satisfies_f5 matched delta = eqb_ℤ delta (pos 0)
satisfies_f5 _ _ = false

eqb_iff : (a : ℤ) → (eqb_ℤ a (pos 0) ≡ true) ↔ (a ≡ pos 0)
eqb_iff a = (λ h. ground arith, λ h. rw h refl)

difference_iff : (a b : ℤ) → (a -ℤ b ≡ pos 0) ↔ (a ≡ b)
difference_iff a b = (
  λ h. eq_of_parts a b (omega (arith, -ℤ_parts a b, ap pos_part h, ap neg_part h)),
  λ h. rw h (eq_of_parts (b -ℤ b) (pos 0) (omega (arith, -ℤ_parts b b))),
)

-- How the machine takes a verdict on a pending reconciliation, and whether F5 holds after it.
abbrev pub Settles : ComparisonVerdict → Type 0 → Type 0
Settles v A =
    (t : ReconciliationTransition) × (evaluate_reconciliation_transition (some pending)
        (trigger_of v)
      ≡ some t)
    × ((satisfies_f5 t.to (delta_of v).minor_units ≡ true) ↔ A)

matching-Settles :
    {A : Type 0} (delta : Money) → delta.minor_units ≡ pos 0 → A → Settles (matching delta) A
unfolding evaluate_reconciliation_transition trigger_of satisfies_f5 delta_of
matching-Settles delta zero a = (_, refl, (λ h. a, λ h. (eqb_iff _).1 zero))

differing-Settles : {A : Type 0} (delta : Money) (why : Why) → ¬ A → Settles (differing delta why) A
unfolding evaluate_reconciliation_transition trigger_of satisfies_f5 delta_of
differing-Settles delta why no_way = (_, refl, (λ h. cc, λ a. absurd (no_way a)))

currency_iff : (a b : Currency) → (same_currency a b ≡ true) ↔ (a ≡ b)
unfolding Currency-discrete
currency_iff a b = same_iff Currency-discrete a b

compare_amounts-Settles :
    (expected observed : Money)
    → observed.currency ≡ expected.currency
    → Settles (compare_amounts expected observed) (some observed ≡ some expected)
unfolding compare_amounts
compare_amounts-Settles expected observed in_one =
    let minor = observed.minor_units -ℤ expected.minor_units in
    elim (Bool-cases (eqb_ℤ minor (pos 0))) [
      | inl y ↦
          let zero = (eqb_iff minor).0 y in
          rw (y, compare_amounts)
            (matching-Settles (money expected.currency minor) zero
              (ap some (ap₂ (λ c m. money c m) in_one ((difference_iff _ _).0 zero))))
      | inr n ↦
          rw (n, compare_amounts)
            (differing-Settles (money expected.currency minor) _ (λ e.
              let zero = (difference_iff _ _).1 (ap (λ m. m.minor_units) (some-injective _ _ e)) in
              cc ((eqb_iff minor).1 zero, n)))
    ]

-- An observation moves a pending reconciliation, to MATCHED or to MISMATCH, and the finality condition
-- F5 holds after it exactly when what was observed is the very amount that was expected, in its
-- currency.
pub compare_observation-Settles :
    (expected : Money) (observation : Observation)
    → Settles
        (compare_observation expected observation)
        (observation.observed_amount ≡ some expected)
unfolding compare_observation
compare_observation-Settles expected observation = elim (Option-cases observation.observed_amount) [
  | inl unstated ↦
      rw (unstated, compare_observation)
        (differing-Settles (money expected.currency (pos 0)) no_amount_observed (λ e. cc))
  | inr (observed, stated) ↦ elim (Bool-cases (same_currency observed.currency expected.currency)) [
    | inl y ↦
        rw (stated, y, compare_observation)
          (compare_amounts-Settles expected observed ((currency_iff _ _).0 y))
    | inr n ↦
        rw (stated, n, compare_observation)
          (differing-Settles (money expected.currency (pos 0)) currency_mismatch
            (λ e. cc ((currency_iff _ _).1 (ap (λ m. m.currency) (some-injective _ _ e)), n)))
  ]
]
