-- ===== src/Settlement/Tests.antt =====
-- Witnesses of the settlement's theorems: one settlement from its draft to finality.
use Prim.Native.String.{String}
use mathlib.Core.List.{Memᴰ}
use inrsettling.Base.{◌≡◌, refl, true, false, some, none, List, [], ◌∷◌, ℕ, ◌+◌, ◌↔◌, ◌⊎◌, map}
use inrsettling.Base.Lists.{find, All}
use inrsettling.Settlement.Status.{SettlementStatus, CustomerStatus, is_terminal}
use inrsettling.Settlement.Vocabulary.{TransitionId, TransitionId-discrete, Trigger, Guard}
use inrsettling.Settlement.Table.{transitions, t02}
use inrsettling.Settlement.Exceptions.{
  ExceptionCode, Requirement, exception_requirement, exception_delay_note, is_customer_actionable,
}
use inrsettling.Settlement.Evaluate.{
  GuardContext, TransitionRequest, TransitionResult, evaluate_transition, choose, is_candidate,
  evaluate_row, acceptance, from_accepts,
}
use inrsettling.Settlement.Evaluate.Table.{row_of}
use inrsettling.Settlement.Evaluate.Laws.{Holds, Answers, evaluate_transition-ok_iff}
use inrsettling.Settlement.Evaluate.Errors.{
  evaluate_transition-unanswered, evaluate_transition-failed,
}
use inrsettling.Settlement.Projection.{
  CustomerProjection, project_customer_status, Affordance, cancellation_affordance,
}
use inrsettling.Settlement.Projection.Agreement.{
  exception_copy_agrees, open_actionable, project_customer_status-action_required,
  cancellation_affordance-table,
}
use inrsettling.Settlement.Service.Defs.{
  Settlement, Store, ApplyInput, has_id, protect_settlement_row, keeps_origin, advance,
}
use inrsettling.Settlement.Service.Apply.{apply_transition, check_patch, trespassing}
use inrsettling.Settlement.Service.Outcomes.{Refused, Applied, apply_transition_cases}
use inrsettling.Settlement.Service.History.{run}
use inrsettling.Settlement.Service.Create.{CreateInput, Call, created_row, serve, serve-settled}
use inrsettling.Settlement.Service.Lifecycle.{to_reconciling}
use inrsettling.Settlement.Service.Trail.{trail}
use inrsettling.Settlement.Service.Finality.{
  terminal_frozen, status_events, moves, apply_transition_pairing,
}

abbrev draft_row : Settlement String
draft_row = record {
  id = "s1";
  status = SettlementStatus.draft;
  customer_status = none;
  version = 0;
  exception_entered_from = none;
  open_exception_code = none;
  payload = [];
}

abbrev drafted : Store String
drafted = record { settlements = draft_row ∷ []; events = []; audit_log = [] }

abbrev all_true : GuardContext
all_true g = some true

abbrev call : Trigger → ApplyInput String
call trigger = record {
  settlement_id = "s1";
  trigger = trigger;
  actor = record { type = "user"; id = "u1" };
  guards = all_true;
  expected_version = none;
  companions = [];
  patch = [];
  status_event_payload = [];
  exception_code = some ExceptionCode.payout_status_unknown;
  reason = none;
}

-- The whole way, with a payout that was unknown for a while.
abbrev calls : List (ApplyInput String)
calls = map call (
    Trigger.run_preflight ∷ Trigger.preflight_passed ∷ Trigger.attach_quote ∷ Trigger.authorize
    ∷ Trigger.begin_reservation ∷ Trigger.reservation_succeeded ∷ Trigger.request_drawdown
    ∷ Trigger.drawdown_confirmed ∷ Trigger.dispatch_payout ∷ Trigger.payout_timeout
    ∷ Trigger.resolve_resume ∷ Trigger.payout_credited ∷ Trigger.begin_reconciliation
    ∷ Trigger.reconciled_matched ∷ [])

-- The store at the end of these calls; to open it is to open the machine.
finished : Store String
unfolding run apply_transition has_id check_patch trespassing evaluate_transition choose transitions
    is_candidate evaluate_row TransitionId-discrete protect_settlement_row is_terminal keeps_origin
    advance
finished = run drafted calls

abbrev settled_row : Settlement String
settled_row = record {
  id = "s1";
  status = SettlementStatus.settled;
  customer_status = some CustomerStatus.settled;
  version = 14;
  exception_entered_from = some SettlementStatus.payout_submitted;
  open_exception_code = none;
  payload = [];
}

abbrev instruction : CreateInput String
instruction = record {
  beneficiary_id = "b1";
  destination_id = "d1";
  recipient_amount_minor = "10000";
  funding_currency = "USD";
  purpose_code = "P0103";
  external_reference = "";
  idempotency_key = "k1";
  replaces_settlement_id = "";
  actor = record { type = "user"; id = "u1" };
}

abbrev empty : Store String
empty = record { settlements = []; events = []; audit_log = [] }

-- The same way, from the creation on.
served : Store String
unfolding serve apply_transition has_id check_patch trespassing evaluate_transition choose
    transitions is_candidate evaluate_row TransitionId-discrete protect_settlement_row is_terminal
    keeps_origin advance
served = serve (λ t. t) empty (Call.create instruction "s1" ∷ map Call.apply calls)

abbrev served_row : Settlement String
unfolding created_row
served_row = record (created_row (λ t. t) instruction "s1") {
  status = SettlementStatus.settled;
  customer_status = some CustomerStatus.settled;
  version = 15;
  exception_entered_from = some SettlementStatus.payout_submitted;
}

serve-settled_example :
    All
      (λ t. Memᴰ t (
        trail "s1"
          (serve (λ t. t) empty (Call.create instruction "s1" ∷ map Call.apply calls)).audit_log))
      (TransitionId.t20 ∷ to_reconciling)
unfolding served
serve-settled_example =
    serve-settled (λ t. t) "s1" empty (Call.create instruction "s1" ∷ map Call.apply calls)
      {row = served_row} refl refl refl

terminal_frozen_example :
    find (has_id "s1") (run finished (call Trigger.resolve_fail ∷ calls)).settlements
    ≡ some settled_row
unfolding finished
terminal_frozen_example =
    terminal_frozen "s1" finished (call Trigger.resolve_fail ∷ calls) {row = settled_row} refl refl

apply_transition_pairing_example :
    status_events (apply_transition drafted (call Trigger.run_preflight)).0.events
    ≡ status_events drafted.events + moves (apply_transition drafted (call Trigger.run_preflight)).1
apply_transition_pairing_example = apply_transition_pairing drafted (call Trigger.run_preflight)

apply_transition_cases_example :
    let result = apply_transition drafted (call Trigger.run_preflight) in
    Refused drafted (call Trigger.run_preflight) result
    ⊎ Applied drafted (call Trigger.run_preflight) result
apply_transition_cases_example = apply_transition_cases drafted (call Trigger.run_preflight)

abbrev request : GuardContext → TransitionRequest
request guards = record {
  from = some SettlementStatus.draft;
  trigger = Trigger.run_preflight;
  guards = guards;
  exception_entered_from = none;
}

evaluate_transition-ok_iff_example :
    (evaluate_transition (request all_true)
      ≡ TransitionResult.ok (acceptance t02 (some SettlementStatus.preflighting)))
    ↔ ((from_accepts (some SettlementStatus.draft) (row_of Trigger.run_preflight).from ≡ true)
        × Holds all_true (row_of Trigger.run_preflight).guards
        × Answers
            (request all_true)
            (row_of Trigger.run_preflight)
            (acceptance t02 (some SettlementStatus.preflighting)))
evaluate_transition-ok_iff_example =
    evaluate_transition-ok_iff (request all_true)
      (acceptance t02 (some SettlementStatus.preflighting))

abbrev unanswered : GuardContext
unanswered g = none

abbrev all_false : GuardContext
all_false g = some false

evaluate_transition-unanswered_example :
    (gs : List Guard) × (evaluate_transition (request unanswered)
      ≡ TransitionResult.guard_unanswered (row_of Trigger.run_preflight).id gs)
    × Memᴰ Guard.beneficiary_amount_purpose_present gs
    × All (λ x. unanswered x ≡ none) gs
unfolding from_accepts row_of
evaluate_transition-unanswered_example =
    evaluate_transition-unanswered (request unanswered) Guard.beneficiary_amount_purpose_present
      refl (Memᴰ.head refl) refl

evaluate_transition-failed_example :
    (gs : List Guard) × (evaluate_transition (request all_false)
      ≡ TransitionResult.guard_failed (row_of Trigger.run_preflight).id gs)
    × Memᴰ Guard.beneficiary_amount_purpose_present gs
    × All (λ x. all_false x ≡ some false) gs
unfolding from_accepts row_of
evaluate_transition-failed_example =
    evaluate_transition-failed (request all_false) Guard.beneficiary_amount_purpose_present refl
      ((λ h. cc), tt) (Memᴰ.head refl) refl

exception_copy_agrees_example :
    ((r : Requirement) × (exception_requirement ExceptionCode.payout_rejected_destination "b1"
        ≡ some (some r))
      × (exception_delay_note ExceptionCode.payout_rejected_destination ≡ some none)
      × (is_customer_actionable ExceptionCode.payout_rejected_destination ≡ some true))
    ⊎ ((note : String) × (exception_requirement ExceptionCode.payout_rejected_destination "b1"
          ≡ some none)
        × (exception_delay_note ExceptionCode.payout_rejected_destination ≡ some (some note))
        × (is_customer_actionable ExceptionCode.payout_rejected_destination ≡ some false))
exception_copy_agrees_example = exception_copy_agrees ExceptionCode.payout_rejected_destination "b1"

project_customer_status-action_required_example :
    (p : CustomerProjection) × (project_customer_status SettlementStatus.exception
        (some ExceptionCode.drawdown_failed)
      ≡ some p)
    × ((p.customer_status ≡ some CustomerStatus.action_required) ↔ (
        (SettlementStatus.exception ≡ SettlementStatus.action_required)
        ⊎ ((SettlementStatus.exception ≡ SettlementStatus.exception)
            × (open_actionable (some ExceptionCode.drawdown_failed) ≡ some true))))
project_customer_status-action_required_example =
    project_customer_status-action_required SettlementStatus.exception
      (some ExceptionCode.drawdown_failed)

cancellation_affordance-table_example :
    ((cancellation_affordance {Time = ℕ} SettlementStatus.ready none none ≡ Affordance.cancel)
      ↔ (from_accepts (some SettlementStatus.ready) (row_of Trigger.cancel).from ≡ true))
    × ((cancellation_affordance {Time = ℕ} SettlementStatus.ready none none
          ≡ Affordance.request_cancellation)
        ↔ (from_accepts (some SettlementStatus.ready) (row_of Trigger.request_cancellation).from
            ≡ true))
    × (cancellation_affordance {Time = ℕ} SettlementStatus.ready (some 7) (some 8)
        ≡ Affordance.nothing)
cancellation_affordance-table_example =
    cancellation_affordance-table ℕ SettlementStatus.ready 7 (some 8)
