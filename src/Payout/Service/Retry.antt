-- ===== src/Payout/Service/Retry.antt =====
-- `retryPayout` of packages/app/src/payout.service.ts.
use Prim.Native.String.{String}
use inrsettling.Base.{ℕ, ◌+◌, Bool, true, false, not, Option, none, some, ◌∷◌, if◌then◌else◌}
use inrsettling.Base.Decimal.{Text}
use inrsettling.Settlement.Service.Defs as Core
use inrsettling.Payout.Attempt.{PayoutAttemptStatus, payout_idempotency_key}
use inrsettling.Payout.Service.Defs.{PayoutRail, Attempt, RetryNote, Store, latest_attempt}

pub record RetryInput : Type 0 where
  pub settlement_id : String
  pub actor : Core.Principal
  pub rail : PayoutRail
  pub sla_seconds : ℕ
  pub provider_id : String
  pub reason : String

pub data RetryResult : Type 0 where
  retried : ℕ → Text → RetryResult
  attempt_not_found retry_requires_authoritative_rejection key_refused : RetryResult

unfoldable pub retry_row : RetryInput → Attempt → Text → String → ℕ → Attempt
retry_row input previous key attempt_id now = record {
  id = attempt_id;
  settlement_id = input.settlement_id;
  destination_version_id = previous.destination_version_id;
  attempt_number = previous.attempt_number + 1;
  status = PayoutAttemptStatus.submitted;
  idempotency_key = key;
  provider_reference = none;
  utr = none;
  dispatched_at = now;
  dispatched_by = input.actor.id;
  resolved_at = none;
  provider_id = some input.provider_id;
  rail = some input.rail;
  amount_minor = previous.amount_minor;
  credited_minor = none;
  raw_code = none;
  mapping_version = none;
  credited_at = none;
  returned_at = none;
  sla_seconds = some input.sla_seconds;
}

unfoldable pub retry_note : RetryInput → Attempt → Text → RetryNote
retry_note input previous key = record {
  actor = input.actor;
  settlement_id = input.settlement_id;
  before_number = previous.attempt_number;
  before_status = previous.status;
  after_number = previous.attempt_number + 1;
  after_key = key;
  reason = input.reason;
}

unfoldable pub is_rejected : PayoutAttemptStatus → Bool
is_rejected PayoutAttemptStatus.rejected = true
is_rejected _ = false

unfoldable pub insert_retry :
    Store → RetryInput → Attempt → Option Text → String → ℕ → Store × RetryResult
unfolding retry_row retry_note
insert_retry store input previous none attempt_id now = (store, RetryResult.key_refused)
insert_retry store input previous (some key) attempt_id now = (
  record store {
    attempts = retry_row input previous key attempt_id now ∷ store.attempts;
    retries = retry_note input previous key ∷ store.retries;
  },
  RetryResult.retried (previous.attempt_number + 1) key,
)

unfoldable pub retry_payout : Store → RetryInput → String → ℕ → Store × RetryResult
unfolding latest_attempt is_rejected insert_retry
retry_payout store input attempt_id now = elim (latest_attempt store input.settlement_id) [
  | none ↦ (store, RetryResult.attempt_not_found)
  | some previous ↦
      if not (is_rejected previous.status)
      then (store, RetryResult.retry_requires_authoritative_rejection)
      else insert_retry store input previous
          (payout_idempotency_key input.settlement_id (previous.attempt_number + 1)) attempt_id now
]
