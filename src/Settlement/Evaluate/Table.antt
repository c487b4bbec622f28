-- ===== src/Settlement/Evaluate/Table.antt =====
-- At most one row of the table has a given trigger, so the evaluator never meets two candidates.
use inrsettling.Base.{◌≡◌, refl, Option, [], ◌∷◌, if◌then◌else◌, Bool, true, false}
use inrsettling.Base.Lists.{filter}
use inrsettling.Settlement.Status.{SettlementStatus}
use inrsettling.Settlement.Vocabulary.{Trigger, Transition}
use inrsettling.Settlement.Table.{
  transitions, t01, t02, t03, t04, t05, t06, t07, t08, t09, t10, t11, t12, t13, t14, t15, t16, t17,
  t18, t19, t20, t21, t22, t23, t24, t25, t26, t27, t28, t29, t30,
}
use inrsettling.Settlement.Evaluate.Defs.{
  from_accepts, is_candidate, TransitionRequest, invalid_transition, evaluate_row,
  evaluate_transition, choose,
}

-- The row with a trigger.
unfoldable pub row_of : Trigger → Transition
unfolding t01 t02 t03 t04 t05 t06 t07 t08 t09 t10 t11 t12 t13 t14 t15 t16 t17 t18 t19 t20 t21 t22
    t23 t24 t25 t26 t27 t28 t29 t30
row_of Trigger.create = t01
row_of Trigger.run_preflight = t02
row_of Trigger.preflight_passed = t03
row_of Trigger.preflight_blocked = t04
row_of Trigger.requirement_resolved = t05
row_of Trigger.attach_quote = t06
row_of Trigger.quote_expired = t07
row_of Trigger.authorize = t08
row_of Trigger.begin_reservation = t09
row_of Trigger.reservation_succeeded = t10
row_of Trigger.reservation_failed = t11
row_of Trigger.request_drawdown = t12
row_of Trigger.drawdown_confirmed = t13
row_of Trigger.drawdown_failed = t14
row_of Trigger.dispatch_payout = t15
row_of Trigger.payout_credited = t16
row_of Trigger.payout_rejected = t17
row_of Trigger.payout_timeout = t18
row_of Trigger.begin_reconciliation = t19
row_of Trigger.reconciled_matched = t20
row_of Trigger.reconciled_mismatch = t21
row_of Trigger.resolve_resume = t22
row_of Trigger.resolve_fail = t23
row_of Trigger.resolve_cancel = t24
row_of Trigger.cancel = t25
row_of Trigger.request_cancellation = t26
row_of Trigger.cancellation_honoured = t27
row_of Trigger.reservation_expired = t28
row_of Trigger.drawdown_timeout = t29
row_of Trigger.reconciliation_stalled = t30

pub candidates_lem :
    (from : Option SettlementStatus) (trigger : Trigger)
    → filter (is_candidate from trigger) transitions
      ≡ (if from_accepts from (row_of trigger).from then row_of trigger ∷ [] else [])
unfolding is_candidate transitions row_of
candidates_lem from Trigger.create = refl
candidates_lem from _ = refl

choose-if :
    (r : TransitionRequest) (t : Transition) (b : Bool)
    → choose r (if b then t ∷ [] else [])
      ≡ (if b then evaluate_row r t else invalid_transition r.from r.trigger)
unfolding choose
choose-if r t true = refl
choose-if r t false = refl

-- The evaluator looks at one row only.
pub evaluate_transition_lem :
    (r : TransitionRequest)
    → evaluate_transition r ≡ (
        if from_accepts r.from (row_of r.trigger).from
        then evaluate_row r (row_of r.trigger)
        else invalid_transition r.from r.trigger)
unfolding evaluate_transition
evaluate_transition_lem r = rw (candidates_lem r.from r.trigger) (choose-if r _ _)
