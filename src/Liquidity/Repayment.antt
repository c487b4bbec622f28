-- ===== src/Liquidity/Repayment.antt =====
-- The repayment machine, Y01 to Y08: packages/domain/src/liquidity/repayment.ts.
use inrsettling.Base.Decimal.{Text, codes, show_ℕ}
use inrsettling.Base.{
  ℕ, ◌==◌, ◌++◌, if◌then◌else◌, Bool, true, false, Option, none, some, List, [], ◌∷◌, same, ◌&&◌,
  map,
}
use inrsettling.Base.Lists.{find, filter, includes}

pub data RepaymentStatus : Type 0 where
  requested submitted confirmed failed unknown : RepaymentStatus

unfoldable pub RepaymentStatus-discrete : Discrete RepaymentStatus
RepaymentStatus-discrete = hlevel

unfoldable pub is_repayment_in_flight : RepaymentStatus → Bool
unfolding RepaymentStatus-discrete
is_repayment_in_flight status =
    includes RepaymentStatus-discrete (requested ∷ submitted ∷ unknown ∷ []) status

pub data RepaymentSource : Type 0 where
  cancellation_after_drawdown settlement_return manual scheduled : RepaymentSource

pub data RepaymentTrigger : Type 0 where
  request submit confirmed rejected sla_elapsed : RepaymentTrigger
  pull_resolved_confirmed pull_resolved_failed re_request : RepaymentTrigger

unfoldable pub RepaymentTrigger-discrete : Discrete RepaymentTrigger
RepaymentTrigger-discrete = hlevel

pub data RepaymentTransitionId : Type 0 where
  y01 y02 y03 y04 y05 y06 y07 y08 : RepaymentTransitionId

-- The `guard` column is prose and is left out.
pub record RepaymentTransition : Type 0 where
  pub id : RepaymentTransitionId
  pub from : List RepaymentStatus
  pub trigger : RepaymentTrigger
  pub to : RepaymentStatus
  pub restores_capacity : Bool
  pub requires_new_fingerprint : Bool

abbrev row :
    RepaymentTransitionId
    → List RepaymentStatus
    → RepaymentTrigger
    → RepaymentStatus
    → Bool
    → Bool
    → RepaymentTransition
row id from trigger to restores fresh = record {
  id = id;
  from = from;
  trigger = trigger;
  to = to;
  restores_capacity = restores;
  requires_new_fingerprint = fresh;
}

unfoldable pub repayment_transitions : List RepaymentTransition
repayment_transitions =
    row y01 [] RepaymentTrigger.request requested false false
    ∷ row y02 (requested ∷ []) RepaymentTrigger.submit submitted false false
    ∷ row y03 (submitted ∷ []) RepaymentTrigger.confirmed RepaymentStatus.confirmed true false
    ∷ row y04 (submitted ∷ []) RepaymentTrigger.rejected failed false false
    ∷ row y05 (submitted ∷ []) RepaymentTrigger.sla_elapsed unknown false false
    ∷ row y06 (unknown ∷ []) RepaymentTrigger.pull_resolved_confirmed RepaymentStatus.confirmed true
        false
    ∷ row y07 (unknown ∷ []) RepaymentTrigger.pull_resolved_failed failed false false
    ∷ row y08 (failed ∷ []) RepaymentTrigger.re_request requested false true
    ∷ []

unfoldable pub repayment_from_accepts : Option RepaymentStatus → List RepaymentStatus → Bool
unfolding RepaymentStatus-discrete
repayment_from_accepts none [] = true
repayment_from_accepts none (_ ∷ _) = false
repayment_from_accepts (some s) from = includes RepaymentStatus-discrete from s

pub record RepaymentEvaluation : Type 0 where
  pub id : RepaymentTransitionId
  pub to : RepaymentStatus
  pub restores_capacity : Bool
  pub requires_new_fingerprint : Bool

-- `none` is the refusal `invalid_transition`.
unfoldable pub evaluate_repayment_transition :
    Option RepaymentStatus → RepaymentTrigger → Option RepaymentEvaluation
unfolding repayment_from_accepts repayment_transitions RepaymentTrigger-discrete
evaluate_repayment_transition from trigger =
    elim (find
      (λ t. same RepaymentTrigger-discrete t.trigger trigger && repayment_from_accepts from t.from)
      repayment_transitions) [
        | none ↦ none
        | some t ↦ some (record {
          id = t.id;
          to = t.to;
          restores_capacity = t.restores_capacity;
          requires_new_fingerprint = t.requires_new_fingerprint;
        })
      ]

unfoldable pub capacity_restoring_transitions : List RepaymentTransitionId
unfolding repayment_transitions
capacity_restoring_transitions =
    map (λ t. t.id) (filter (λ t. t.restores_capacity) repayment_transitions)

-- `repay:v1:<id>:<attempt>`
unfoldable pub fingerprint_text : Text → ℕ → Text
fingerprint_text repayment_id attempt =
    codes "repay:v1:" ++ (repayment_id ++ (b':' ∷ show_ℕ attempt))

-- `none` is the error for an attempt that is not positive.
unfoldable pub repayment_fingerprint : Text → ℕ → Option Text
unfolding fingerprint_text
repayment_fingerprint repayment_id attempt =
    if attempt == 0 then none else some (fingerprint_text repayment_id attempt)
