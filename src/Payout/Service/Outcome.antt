-- ===== src/Payout/Service/Outcome.antt =====
-- What `applyPayoutOutcome` and `sweepPayoutSla` of packages/app/src/payout.service.ts take and
-- answer, and the calls of the transition service that they make. Both are run
-- within one transaction: an error that is raised below them rolls back all that they wrote.
use Prim.Native.String.{String}
use inrsettling.Base.{ℕ, Bool, true, false, Option, none, some, List, [], ◌∷◌}
use inrsettling.Base.Lists.{find}
use inrsettling.Base.Int.{ℤ}
use inrsettling.Settlement.Status.{SettlementStatus}
use inrsettling.Settlement.Vocabulary.{Trigger, Guard}
use inrsettling.Settlement.Exceptions.{ExceptionCode}
use inrsettling.Settlement.Evaluate.{GuardContext}
use inrsettling.Settlement.Service.Defs as Core
use inrsettling.Payout.Attempt.{PayoutAttemptStatus}
use inrsettling.Payout.Service.Defs.{Value, Attempt, Store}

pub data ProviderOutcome : Type 0 where
  accepted credited rejected returned unknown : ProviderOutcome

pub record PayoutOutcomeInput : Type 0 where
  pub settlement_id : String
  pub outcome : ProviderOutcome
  pub actor : Core.Principal
  pub trusted : Bool
  pub utr : Option String
  pub raw_code : Option String
  pub exception_code : Option ExceptionCode
  pub provider_reference : Option String
  pub mapping_version : Option String
  pub credited_minor : Option ℤ

-- `applied` holds the number and the status of the attempt, whether it was so before, and whether the
-- settlement waits for an operator.
pub data PayoutResult : Type 0 where
  applied : ℕ → PayoutAttemptStatus → Bool → Bool → PayoutResult
  untrusted_evidence attempt_not_found utr_missing_or_malformed : PayoutResult
  invalid_attempt_transition return_requires_credit : PayoutAttemptStatus → PayoutResult
  unknown_outcome_is_not_applied sla_not_elapsed : PayoutResult
  attempt_not_in_flight : PayoutAttemptStatus → PayoutResult
  not_moved : Core.Outcome → PayoutResult
  raised : PayoutResult

-- `status === 'SUBMITTED' || status === 'ACCEPTED' || status === 'UNKNOWN'`
unfoldable pub awaits_answer : PayoutAttemptStatus → Bool
awaits_answer PayoutAttemptStatus.submitted = true
awaits_answer PayoutAttemptStatus.accepted = true
awaits_answer PayoutAttemptStatus.unknown = true
awaits_answer _ = false

-- `status === 'SUBMITTED' || status === 'ACCEPTED'`
unfoldable pub is_on_the_rail : PayoutAttemptStatus → Bool
is_on_the_rail PayoutAttemptStatus.submitted = true
is_on_the_rail PayoutAttemptStatus.accepted = true
is_on_the_rail _ = false

unfoldable pub in_exception : Store → String → Bool
in_exception store settlement_id = elim (find (Core.has_id settlement_id) store.core.settlements) [
  | none ↦ false
  | some row ↦ elim row.status [ SettlementStatus.exception ↦ true | _ ↦ false ]
]

unfoldable pub credited_guards : GuardContext
credited_guards Guard.trusted_provider_event = some true
credited_guards Guard.utr_present_and_well_formed = some true
credited_guards _ = none

unfoldable pub rejected_guards : GuardContext
rejected_guards Guard.trusted_provider_event = some true
rejected_guards _ = none

unfoldable pub timeout_guards : GuardContext
timeout_guards Guard.rail_sla_elapsed = some true
timeout_guards _ = none

-- A call of the transition service with no expected version, companions or patch.
unfoldable pub plain_call :
    String
    → Core.Principal
    → Trigger
    → GuardContext
    → Option ExceptionCode
    → List (String × Value)
    → Core.ApplyInput Value
plain_call settlement_id actor trigger guards code payload = record {
  settlement_id = settlement_id;
  trigger = trigger;
  actor = actor;
  guards = guards;
  expected_version = none;
  companions = [];
  patch = [];
  status_event_payload = payload;
  exception_code = code;
  reason = none;
}

abbrev pub text_or_null : Option String → Value
text_or_null none = Value.null
text_or_null (some s) = Value.words s

unfoldable pub credited_call : PayoutOutcomeInput → Attempt → Core.ApplyInput Value
unfolding plain_call credited_guards
credited_call input attempt =
    plain_call input.settlement_id input.actor Trigger.payout_credited credited_guards none (
      ("utr", text_or_null input.utr)
      ∷ ("attempt_number", Value.number attempt.attempt_number)
      ∷ [])

-- `input.exceptionCode ?? 'PAYOUT_REJECTED_PROVIDER'`
unfoldable pub code_or_provider : Option ExceptionCode → ExceptionCode
code_or_provider none = ExceptionCode.payout_rejected_provider
code_or_provider (some code) = code

unfoldable pub rejected_call : PayoutOutcomeInput → Attempt → Core.ApplyInput Value
unfolding plain_call rejected_guards code_or_provider
rejected_call input attempt =
    plain_call input.settlement_id input.actor Trigger.payout_rejected rejected_guards
      (some (code_or_provider input.exception_code))
      (("attempt_number", Value.number attempt.attempt_number)
        ∷ ("raw_code", text_or_null input.raw_code)
        ∷ [])
