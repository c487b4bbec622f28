-- ===== src/Payout/Tests.antt =====
-- Witnesses of the theorems on payouts: a dispatch that is rejected, and its retry.
use Prim.Native.String.{String}
use text.Mathlib.TextEquality.{eq_iff}
use mathlib.Core.List.{Memᴰ}
use inrsettling.Base.{ℕ, ◌≡◌, ◌≢◌, refl, true, false, some, none, [], ◌∷◌, arith}
use inrsettling.Base.Decimal.{codes}
use inrsettling.Settlement.Status.{SettlementStatus, is_terminal}
use inrsettling.Settlement.Vocabulary.{TransitionId-discrete}
use inrsettling.Settlement.Table.{transitions}
use inrsettling.Settlement.Evaluate.{evaluate_transition, choose, is_candidate, evaluate_row}
use inrsettling.Settlement.Service.Defs as Core
use inrsettling.Settlement.Service.Apply.{apply_transition, check_patch, trespassing}
use inrsettling.Payout.Attempt.{
  PayoutAttemptStatus, AttemptSummary, AttemptAllocation, allocate_attempt_number,
  payout_idempotency_key, key_text,
}
use inrsettling.Payout.Allocation.{allocate_attempt_number_lem}
use inrsettling.Payout.Keys.{payout_idempotency_key_injective}
use inrsettling.Payout.Service.Defs.{Value, PayoutRail, Attempt, Store, update_attempt}
use inrsettling.Payout.Service.Dispatch.{DispatchInput, dispatch_payout}
use inrsettling.Payout.Service.Retry.{RetryInput, retry_payout}
use inrsettling.Payout.Service.Outcome.{ProviderOutcome, PayoutOutcomeInput, PayoutResult}
use inrsettling.Payout.Service.Apply.{apply_payout_outcome, rejected_row}
use inrsettling.Payout.Service.Moves.{Answers}
use inrsettling.Payout.Service.Moving.{apply_payout_outcome-Answers}
use inrsettling.Payout.Service.Steps.{Step, Reach}
use inrsettling.Payout.Service.Safety.{Reach-one_live}
use inrsettling.Payout.Service.Replay.{replayed_rejection}

abbrev rejected_first : AttemptSummary
rejected_first = record { attempt_number = 1; status = PayoutAttemptStatus.rejected }

abbrev unknown_second : AttemptSummary
unknown_second = record { attempt_number = 2; status = PayoutAttemptStatus.unknown }

allocate_attempt_number_lem_example :
    allocate_attempt_number (rejected_first ∷ unknown_second ∷ [])
    ≡ AttemptAllocation.status_unknown 2
allocate_attempt_number_lem_example =
    allocate_attempt_number_lem (rejected_first ∷ []) [] unknown_second ((refl, omega arith), tt) tt

payout_idempotency_key_injective_example : (codes "s:1" ≡ codes "s:1") × (◌≡◌ {A = ℕ} 12 12)
unfolding payout_idempotency_key
payout_idempotency_key_injective_example =
    payout_idempotency_key_injective "s:1" "s:1" 12 12 {key = key_text (codes "s:1") 12} refl refl

abbrev operator : Core.Principal
operator = record { type = "user"; id = "u1" }

-- A settlement that is funded, with the columns that its authorization wrote.
abbrev funded : Core.Settlement Value
funded = record {
  id = "s1";
  status = SettlementStatus.drawdown_confirmed;
  customer_status = none;
  version = 8;
  exception_entered_from = none;
  open_exception_code = none;
  payload =
      ("destinationVersionId", Value.words "d1") ∷ ("authorizedTermsHash", Value.words "h1") ∷ [];
}

abbrev start : Store
start = record {
  core = record { settlements = funded ∷ []; events = []; audit_log = [] };
  attempts = [];
  retries = [];
}

abbrev dispatch_input : DispatchInput
dispatch_input = record {
  settlement_id = "s1";
  actor = operator;
  rail_selected = true;
  rail = some PayoutRail.imps;
  sla_seconds = some 60;
  provider_id = some "p1";
  funding_amount_minor = none;
}

abbrev rejection : PayoutOutcomeInput
rejection = record {
  settlement_id = "s1";
  outcome = ProviderOutcome.rejected;
  actor = operator;
  trusted = true;
  utr = none;
  raw_code = some "R01";
  exception_code = none;
  provider_reference = none;
  mapping_version = none;
  credited_minor = none;
}

abbrev retry_input : RetryInput
retry_input = record {
  settlement_id = "s1";
  actor = operator;
  rail = PayoutRail.neft;
  sla_seconds = 7200;
  provider_id = "p1";
  reason = "the account was unblocked";
}

-- The stores on the way; to open one is to open the machine up to there.
dispatched : Store
unfolding dispatch_payout Core.has_id allocate_attempt_number payout_idempotency_key
    apply_transition check_patch trespassing evaluate_transition choose transitions is_candidate
    evaluate_row TransitionId-discrete Core.protect_settlement_row is_terminal Core.keeps_origin
    Core.advance
dispatched = (dispatch_payout start dispatch_input true "a1" 0).0

rejected : Store
unfolding apply_payout_outcome
rejected = (apply_payout_outcome dispatched rejection 1).0

retried : Store
unfolding retry_payout
retried = (retry_payout rejected retry_input "a2" 2).0

other_id : ◌≢◌ {A = String} "a1" "a2"
other_id e = cc ((eq_iff "a1" "a2").1 e)

to_rejected : Reach start rejected
unfolding rejected dispatched
to_rejected =
    Reach.next {t = dispatched}
      (Reach.next Reach.here (Step.dispatch dispatch_input true "a1" 0 tt refl))
      (Step.outcome rejection 1 refl)

to_retried : Reach start retried
unfolding retried rejected dispatched
to_retried =
    Reach.next {t = rejected} to_rejected (Step.retry retry_input "a2" 2 (other_id, tt) refl)

abbrev retried_row : Attempt
retried_row = record {
  id = "a2";
  settlement_id = "s1";
  destination_version_id = Value.words "d1";
  attempt_number = 2;
  status = PayoutAttemptStatus.submitted;
  idempotency_key = key_text (codes "s1") 2;
  provider_reference = none;
  utr = none;
  dispatched_at = 2;
  dispatched_by = "u1";
  resolved_at = none;
  provider_id = some "p1";
  rail = some PayoutRail.neft;
  amount_minor = none;
  credited_minor = none;
  raw_code = none;
  mapping_version = none;
  credited_at = none;
  returned_at = none;
  sla_seconds = some 7200;
}

Reach-one_live_example : retried_row ≡ retried_row
unfolding retried rejected dispatched
Reach-one_live_example =
    Reach-one_live {s = start} {t = retried} "s1" retried_row retried_row refl to_retried
      (Memᴰ.head refl) (Memᴰ.head refl) (λ e. cc) (λ e. cc)

apply_payout_outcome-Answers_example :
    Answers dispatched rejection (apply_payout_outcome dispatched rejection 1)
apply_payout_outcome-Answers_example = apply_payout_outcome-Answers dispatched rejection 1

replayed_rejection_example : apply_payout_outcome retried rejection 3 ≡ (
  update_attempt "a2" (rejected_row rejection 3) retried,
  PayoutResult.applied 2 PayoutAttemptStatus.rejected false true,
)
unfolding retried rejected dispatched
replayed_rejection_example =
    replayed_rejection {s = start} {t = retried} rejected rejection retry_input "a2" 2 3 {n = 2}
      {key = key_text (codes "s1") 2} refl to_retried refl refl refl refl refl
