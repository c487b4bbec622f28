-- ===== src/Payout/Service/Dispatch.antt =====
-- `dispatchPayout` of packages/app/src/settlement.service.ts.
use Prim.Native.String.{String}
use inrsettling.Base.{
  ℕ, Bool, true, false, ◌||◌, not, Option, none, some, [], ◌∷◌, map, ◌==◌, if◌then◌else◌,
}
use inrsettling.Base.Lists.{find}
use inrsettling.Base.Int.{ℤ}
use inrsettling.Base.Decimal.{Text}
use inrsettling.Settlement.Vocabulary.{Trigger, Guard}
use inrsettling.Settlement.Evaluate.{GuardContext}
use inrsettling.Settlement.Service.Defs as Core
use inrsettling.Settlement.Service.Apply.{apply_transition}
use inrsettling.Payout.Attempt.{
  PayoutAttemptStatus, AttemptAllocation, allocate_attempt_number, payout_idempotency_key,
}
use inrsettling.Payout.Service.Defs.{
  Value, PayoutRail, Attempt, Store, attempts_of, summary, column, or_old, is_falsy, is_null,
}

pub record DispatchInput : Type 0 where
  pub settlement_id : String
  pub actor : Core.Principal
  pub rail_selected : Bool
  pub rail : Option PayoutRail
  pub sla_seconds : Option ℕ
  pub provider_id : Option String
  pub funding_amount_minor : Option ℤ

pub data DispatchResult : Type 0 where
  dispatched : String → ℕ → Text → Bool → DispatchResult
  settlement_not_found cancellation_pending not_authorized : DispatchResult
  not_allocated already_dispatched : AttemptAllocation → DispatchResult
  attempt_state_inconsistent : DispatchResult
  not_moved : Core.Outcome → DispatchResult
  key_refused : DispatchResult

unfoldable pub dispatch_guards : Bool → Bool → GuardContext
dispatch_guards rail_selected frozen_verified Guard.rail_selected = some rail_selected
dispatch_guards rail_selected frozen_verified Guard.destination_version_verified =
    some frozen_verified
dispatch_guards rail_selected frozen_verified Guard.no_cancellation_pending = some true
dispatch_guards rail_selected frozen_verified Guard.before_point_of_no_return = some true
dispatch_guards rail_selected frozen_verified _ = none

unfoldable pub dispatch_call : DispatchInput → Bool → String → ℕ → Core.ApplyInput Value
unfolding dispatch_guards
dispatch_call input frozen_verified attempt_id now = record {
  settlement_id = input.settlement_id;
  trigger = Trigger.dispatch_payout;
  actor = input.actor;
  guards = dispatch_guards input.rail_selected frozen_verified;
  expected_version = none;
  companions = [];
  patch = ("pointOfNoReturnAt", Value.time now) ∷ ("payoutAttemptId", Value.words attempt_id) ∷ [];
  status_event_payload = ("payout_attempt_id", Value.words attempt_id) ∷ [];
  exception_code = none;
  reason = none;
}

unfoldable pub first_row : DispatchInput → Core.Settlement Value → Text → String → ℕ → Attempt
unfolding column or_old
first_row input current key attempt_id now = record {
  id = attempt_id;
  settlement_id = input.settlement_id;
  destination_version_id = column "destinationVersionId" current;
  attempt_number = 1;
  status = PayoutAttemptStatus.submitted;
  idempotency_key = key;
  provider_reference = none;
  utr = none;
  dispatched_at = now;
  dispatched_by = input.actor.id;
  resolved_at = none;
  provider_id = or_old input.provider_id none;
  rail = input.rail;
  amount_minor = input.funding_amount_minor;
  credited_minor = none;
  raw_code = none;
  mapping_version = none;
  credited_at = none;
  returned_at = none;
  sla_seconds = input.sla_seconds;
}

-- The row of the first attempt, once the settlement has moved.
unfoldable pub insert_first :
    Store → Attempt → Core.Store Value × Core.Outcome → Store × DispatchResult
insert_first store row (core, Core.Outcome.ok _ _ _ _) = (
  record store { core = core; attempts = row ∷ store.attempts },
  DispatchResult.dispatched row.id row.attempt_number row.idempotency_key false,
)
insert_first store row (core, refusal) = (store, DispatchResult.not_moved refusal)

-- Across the boundary for the first time.
unfoldable pub cross :
    Store → DispatchInput → Bool → Core.Settlement Value → String → ℕ → Store × DispatchResult
unfolding insert_first first_row dispatch_call
cross store input frozen_verified current attempt_id now =
    elim (payout_idempotency_key input.settlement_id 1) [
      | none ↦ (store, DispatchResult.key_refused)
      | some key ↦
          insert_first store (first_row input current key attempt_id now)
            (apply_transition store.core (dispatch_call input frozen_verified attempt_id now))
    ]

-- Behind the boundary an attempt in flight is given back, and nothing else is.
unfoldable pub answer_again : Store → DispatchInput → AttemptAllocation → DispatchResult
unfolding attempts_of
answer_again store input (AttemptAllocation.reuse_in_flight n) =
    elim (find (λ a. a.attempt_number == n) (attempts_of input.settlement_id store.attempts)) [
      | none ↦ DispatchResult.attempt_state_inconsistent
      | some a ↦ DispatchResult.dispatched a.id a.attempt_number a.idempotency_key true
    ]
answer_again store input allocation = DispatchResult.already_dispatched allocation

unfoldable pub is_allocated : AttemptAllocation → Bool
is_allocated AttemptAllocation.first_attempt = true
is_allocated (AttemptAllocation.reuse_in_flight _) = true
is_allocated (AttemptAllocation.next_attempt _) = true
is_allocated _ = false

unfoldable pub is_first : AttemptAllocation → Bool
is_first AttemptAllocation.first_attempt = true
is_first _ = false

unfoldable pub dispatch_allocated :
    Store
    → DispatchInput
    → Bool
    → Core.Settlement Value
    → String
    → ℕ
    → AttemptAllocation
    → Store × DispatchResult
unfolding cross answer_again is_allocated is_first column is_null
dispatch_allocated store input frozen_verified current attempt_id now allocation =
    if not (is_allocated allocation)
    then (store, DispatchResult.not_allocated allocation)
    else if not (is_null (column "pointOfNoReturnAt" current))
    then (store, answer_again store input allocation)
    else if not (is_first allocation)
    then (store, DispatchResult.attempt_state_inconsistent)
    else cross store input frozen_verified current attempt_id now

-- `frozen_verified` is what the read of the destination's verifications finds.
unfoldable pub dispatch_payout : Store → DispatchInput → Bool → String → ℕ → Store × DispatchResult
unfolding dispatch_allocated column is_null is_falsy attempts_of
dispatch_payout store input frozen_verified attempt_id now =
    elim (find (Core.has_id input.settlement_id) store.core.settlements) [
      | none ↦ (store, DispatchResult.settlement_not_found)
      | some current ↦
          if not (is_null (column "cancellationRequestedAt" current))
          then (store, DispatchResult.cancellation_pending)
          else if is_falsy (column "destinationVersionId" current)
              || is_falsy (column "authorizedTermsHash" current)
          then (store, DispatchResult.not_authorized)
          else dispatch_allocated store input frozen_verified current attempt_id now (
              allocate_attempt_number
                (map summary (attempts_of input.settlement_id store.attempts)))
    ]
