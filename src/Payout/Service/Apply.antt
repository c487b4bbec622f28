-- ===== src/Payout/Service/Apply.antt =====
-- `applyPayoutOutcome` and `sweepPayoutSla` of packages/app/src/payout.service.ts: the writes to an
-- attempt, and the call of the transition service that follows.
use Prim.Native.String.{String}
use inrsettling.Base.{ℕ, ◌+◌, ◌*◌, Bool, true, false, not, none, some, [], ◌∷◌, ltb, if◌then◌else◌}
use inrsettling.Settlement.Vocabulary.{Trigger}
use inrsettling.Settlement.Exceptions.{ExceptionCode}
use inrsettling.Settlement.Service.Defs as Core
use inrsettling.Settlement.Service.Apply.{apply_transition}
use inrsettling.Payout.Attempt.{PayoutAttemptStatus}
use inrsettling.Payout.Service.Defs.{
  Value, Attempt, Store, latest_attempt, update_attempt, or_old, or_kept, is_well_formed_utr,
}
use inrsettling.Payout.Service.Outcome.{
  ProviderOutcome, PayoutOutcomeInput, PayoutResult, awaits_answer, is_on_the_rail, in_exception,
  timeout_guards, plain_call, credited_call, rejected_call,
}

unfoldable pub credited_row : PayoutOutcomeInput → ℕ → Attempt → Attempt
unfolding or_old or_kept
credited_row input now a = record a {
  status = PayoutAttemptStatus.credited;
  utr = input.utr;
  credited_at = some now;
  resolved_at = some now;
  credited_minor = or_kept input.credited_minor a.credited_minor;
  provider_reference = or_old input.provider_reference a.provider_reference;
  raw_code = or_old input.raw_code a.raw_code;
  mapping_version = or_old input.mapping_version a.mapping_version;
}

unfoldable pub rejected_row : PayoutOutcomeInput → ℕ → Attempt → Attempt
unfolding or_old
rejected_row input now a = record a {
  status = PayoutAttemptStatus.rejected;
  resolved_at = some now;
  provider_reference = or_old input.provider_reference a.provider_reference;
  raw_code = or_old input.raw_code a.raw_code;
  mapping_version = or_old input.mapping_version a.mapping_version;
}

unfoldable pub accepted_row : PayoutOutcomeInput → Attempt → Attempt
unfolding or_old
accepted_row input a = record a {
  status = PayoutAttemptStatus.accepted;
  provider_reference = or_old input.provider_reference a.provider_reference;
}

unfoldable pub returned_row : PayoutOutcomeInput → ℕ → Attempt → Attempt
unfolding or_old
returned_row input now a = record a {
  status = PayoutAttemptStatus.returned;
  returned_at = some now;
  raw_code = or_old input.raw_code a.raw_code;
}

abbrev pub unknown_row : Attempt → Attempt
unknown_row a = record a { status = PayoutAttemptStatus.unknown }

-- What the transition answers, beside the attempt as it was written: a refusal keeps what was written
-- to the attempt, an error does not.
unfoldable pub follow :
    Store → Store → ℕ → PayoutAttemptStatus → Core.Store Value × Core.Outcome → Store × PayoutResult
follow before written number status (core, Core.Outcome.ok _ _ _ _) =
    (record written { core = core }, PayoutResult.applied number status false false)
follow before written number status (core, Core.Outcome.raised) = (before, PayoutResult.raised)
follow before written number status (core, refusal) = (written, PayoutResult.not_moved refusal)

-- The attempt is written in any case; the settlement is moved unless it is in an exception.
unfoldable pub settle_answer :
    Store
    → String
    → Attempt
    → PayoutAttemptStatus
    → (Attempt → Attempt)
    → Core.ApplyInput Value
    → Store × PayoutResult
unfolding in_exception follow update_attempt
settle_answer store settlement_id attempt status change call =
    let written = update_attempt attempt.id change store in
    if in_exception store settlement_id
    then (written, PayoutResult.applied attempt.attempt_number status false true)
    else follow store written attempt.attempt_number status (apply_transition store.core call)

unfoldable pub apply_credited : Store → PayoutOutcomeInput → Attempt → ℕ → Store × PayoutResult
unfolding awaits_answer settle_answer credited_row credited_call is_well_formed_utr
apply_credited store input attempt now =
    if not (is_well_formed_utr input.utr)
    then (store, PayoutResult.utr_missing_or_malformed)
    else elim attempt.status [
      | PayoutAttemptStatus.credited ↦ (
        store,
        PayoutResult.applied attempt.attempt_number PayoutAttemptStatus.credited true false,
      )
      | status ↦
          if not (awaits_answer status)
          then (store, PayoutResult.invalid_attempt_transition status)
          else settle_answer store input.settlement_id attempt PayoutAttemptStatus.credited
              (credited_row input now) (credited_call input attempt)
    ]

unfoldable pub apply_rejected : Store → PayoutOutcomeInput → Attempt → ℕ → Store × PayoutResult
unfolding awaits_answer settle_answer rejected_row rejected_call
apply_rejected store input attempt now = elim attempt.status [
  | PayoutAttemptStatus.rejected ↦
      (store, PayoutResult.applied attempt.attempt_number PayoutAttemptStatus.rejected true false)
  | status ↦
      if not (awaits_answer status)
      then (store, PayoutResult.invalid_attempt_transition status)
      else settle_answer store input.settlement_id attempt PayoutAttemptStatus.rejected
          (rejected_row input now) (rejected_call input attempt)
]

unfoldable pub apply_accepted : Store → PayoutOutcomeInput → Attempt → Store × PayoutResult
unfolding update_attempt accepted_row
apply_accepted store input attempt = elim attempt.status [
  | PayoutAttemptStatus.submitted ↦ (
    update_attempt attempt.id (accepted_row input) store,
    PayoutResult.applied attempt.attempt_number PayoutAttemptStatus.accepted false false,
  )
  | status ↦ (store, PayoutResult.applied attempt.attempt_number status true false)
]

unfoldable pub apply_returned : Store → PayoutOutcomeInput → Attempt → ℕ → Store × PayoutResult
unfolding update_attempt returned_row
apply_returned store input attempt now = elim attempt.status [
  | PayoutAttemptStatus.credited ↦ (
    update_attempt attempt.id (returned_row input now) store,
    PayoutResult.applied attempt.attempt_number PayoutAttemptStatus.returned false false,
  )
  | PayoutAttemptStatus.returned ↦
      (store, PayoutResult.applied attempt.attempt_number PayoutAttemptStatus.returned true false)
  | status ↦ (store, PayoutResult.return_requires_credit status)
]

unfoldable pub apply_to_attempt :
    Store → PayoutOutcomeInput → Attempt → ℕ → ProviderOutcome → Store × PayoutResult
unfolding apply_credited apply_rejected apply_accepted apply_returned
apply_to_attempt store input attempt now ProviderOutcome.credited =
    apply_credited store input attempt now
apply_to_attempt store input attempt now ProviderOutcome.rejected =
    apply_rejected store input attempt now
apply_to_attempt store input attempt now ProviderOutcome.accepted =
    apply_accepted store input attempt
apply_to_attempt store input attempt now ProviderOutcome.returned =
    apply_returned store input attempt now
apply_to_attempt store input attempt now ProviderOutcome.unknown =
    (store, PayoutResult.unknown_outcome_is_not_applied)

unfoldable pub apply_payout_outcome : Store → PayoutOutcomeInput → ℕ → Store × PayoutResult
unfolding latest_attempt apply_to_attempt
apply_payout_outcome store input now =
    if not input.trusted
    then (store, PayoutResult.untrusted_evidence)
    else elim (latest_attempt store input.settlement_id) [
      | none ↦ (store, PayoutResult.attempt_not_found)
      | some attempt ↦ apply_to_attempt store input attempt now input.outcome
    ]

-- `elapsedSeconds < (attempt.sla_seconds ?? Infinity)`, in milliseconds.
unfoldable pub is_within_sla : Attempt → ℕ → Bool
is_within_sla attempt now = elim attempt.sla_seconds [
  | none ↦ true
  | some s ↦ ltb now (attempt.dispatched_at + s * 1000)
]

unfoldable pub timeout_call : String → Core.Principal → Attempt → Core.ApplyInput Value
unfolding plain_call timeout_guards
timeout_call settlement_id actor attempt =
    plain_call settlement_id actor Trigger.payout_timeout timeout_guards
      (some ExceptionCode.payout_status_unknown)
      (("attempt_number", Value.number attempt.attempt_number) ∷ [])

unfoldable pub sweep_payout_sla : Store → String → Core.Principal → ℕ → Store × PayoutResult
unfolding latest_attempt is_on_the_rail is_within_sla follow update_attempt timeout_call
sweep_payout_sla store settlement_id actor now = elim (latest_attempt store settlement_id) [
  | none ↦ (store, PayoutResult.attempt_not_found)
  | some attempt ↦
      if not (is_on_the_rail attempt.status)
      then (store, PayoutResult.attempt_not_in_flight attempt.status)
      else if is_within_sla attempt now
      then (store, PayoutResult.sla_not_elapsed)
      else follow store (update_attempt attempt.id unknown_row store) attempt.attempt_number
          PayoutAttemptStatus.unknown
          (apply_transition store.core (timeout_call settlement_id actor attempt))
]
