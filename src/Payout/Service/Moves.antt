-- ===== src/Payout/Service/Moves.antt =====
-- What the payout service does to the attempts of a settlement: each write moves the latest one along
-- the table, and keeps what the trigger protect_payout_attempt protects of it.
use Prim.Native.String.{String}
use inrsettling.Base.{ℕ, ◌≡◌, refl, ◌⊎◌, inl, inr, true, false, Option, none, some, arith}
use inrsettling.Settlement.Service.Defs as Core
use inrsettling.Payout.Attempt.{
  PayoutAttemptStatus, PayoutTrigger, PayoutTransitionId, evaluate_payout_transition, p03, p04, p06,
  p07,
}
use inrsettling.Payout.Service.Defs.{
  Value, Attempt, Store, latest_attempt, update_attempt, is_well_formed_utr,
}
use inrsettling.Payout.Service.Outcome.{
  ProviderOutcome, PayoutOutcomeInput, PayoutResult, awaits_answer,
}
use inrsettling.Payout.Service.Apply.{
  credited_row, rejected_row, accepted_row, returned_row, unknown_row, follow,
}

-- The identity of an attempt: `protect_payout_attempt` of
-- packages/db/migrations/0005_settlements.sql.
pub record SameIdentity (a b : Attempt) : Type 0 where
  pub id : b.id ≡ a.id
  pub settlement_id : b.settlement_id ≡ a.settlement_id
  pub attempt_number : b.attempt_number ≡ a.attempt_number
  pub idempotency_key : b.idempotency_key ≡ a.idempotency_key
  pub destination_version_id : b.destination_version_id ≡ a.destination_version_id
  pub dispatched_at : b.dispatched_at ≡ a.dispatched_at

-- The latest attempt has moved by a row of the table, and no other row has changed.
pub record IsMoved (store : Store) (settlement_id : String) (after : Store) : Type 0 where
  pub attempt : Attempt
  pub change : Attempt → Attempt
  pub trigger : PayoutTrigger
  pub transition : PayoutTransitionId
  pub found : latest_attempt store settlement_id ≡ some attempt
  pub keeps : (a : Attempt) → SameIdentity a (change a)
  pub legal :
      evaluate_payout_transition (some attempt.status) trigger
      ≡ some (transition, (change attempt).status)
  pub written : after.attempts ≡ (update_attempt attempt.id change store).attempts

abbrev pub Moves : Store → String → Store → Type 0
Moves store settlement_id after =
    (after.attempts ≡ store.attempts) ⊎ IsMoved store settlement_id after

-- The trigger by which the table knows what a provider reports of an attempt in a status: that of a
-- pull for an attempt whose fate is unknown, whoever reports it.
unfoldable pub reported : ProviderOutcome → PayoutAttemptStatus → Option PayoutTrigger
reported ProviderOutcome.credited PayoutAttemptStatus.unknown =
    some PayoutTrigger.pull_resolved_credited
reported ProviderOutcome.credited _ = some PayoutTrigger.credited
reported ProviderOutcome.rejected PayoutAttemptStatus.unknown =
    some PayoutTrigger.pull_resolved_rejected
reported ProviderOutcome.rejected _ = some PayoutTrigger.rejected
reported ProviderOutcome.accepted _ = some PayoutTrigger.accepted
reported ProviderOutcome.returned _ = some PayoutTrigger.returned
reported ProviderOutcome.unknown _ = none

-- What the table answers to a report.
abbrev pub listed :
    ProviderOutcome → PayoutAttemptStatus → Option (PayoutTransitionId × PayoutAttemptStatus)
listed outcome status = elim (reported outcome status) [
  | none ↦ none
  | some trigger ↦ evaluate_payout_transition (some status) trigger
]

-- A trusted report has moved the latest attempt by the trigger of what was reported.
pub record IsReported (store : Store) (input : PayoutOutcomeInput) (after : Store) : Type 0 where
  pub trusted : input.trusted ≡ true
  pub moved : IsMoved store input.settlement_id after
  pub by_report : reported input.outcome moved.attempt.status ≡ some moved.trigger

-- Why a report moves no attempt.
pub data Unmoved (store : Store) (input : PayoutOutcomeInput) (result : PayoutResult) : Type 0 where
  untrusted : input.trusted ≡ false → Unmoved store input result
  no_attempt : latest_attempt store input.settlement_id ≡ none → Unmoved store input result
  not_listed :
      (attempt : Attempt)
      → latest_attempt store input.settlement_id ≡ some attempt
      → listed input.outcome attempt.status ≡ none
      → Unmoved store input result
  no_utr :
      input.outcome ≡ ProviderOutcome.credited
      → is_well_formed_utr input.utr ≡ false
      → Unmoved store input result
  rolled_back : result ≡ PayoutResult.raised → Unmoved store input result

-- What a report does to the attempts, with the reason where it does nothing.
abbrev pub Answers : Store → PayoutOutcomeInput → Store × PayoutResult → Type 0
Answers store input (after, result) =
    IsReported store input after ⊎ ((after.attempts ≡ store.attempts) × Unmoved store input result)

pub credited_row-SameIdentity :
    (input : PayoutOutcomeInput) (now : ℕ) (a : Attempt) → SameIdentity a (credited_row input now a)
unfolding credited_row
credited_row-SameIdentity input now a = record {
  id = refl;
  settlement_id = refl;
  attempt_number = refl;
  idempotency_key = refl;
  destination_version_id = refl;
  dispatched_at = refl;
}

pub rejected_row-SameIdentity :
    (input : PayoutOutcomeInput) (now : ℕ) (a : Attempt) → SameIdentity a (rejected_row input now a)
unfolding rejected_row
rejected_row-SameIdentity input now a = record {
  id = refl;
  settlement_id = refl;
  attempt_number = refl;
  idempotency_key = refl;
  destination_version_id = refl;
  dispatched_at = refl;
}

pub accepted_row-SameIdentity :
    (input : PayoutOutcomeInput) (a : Attempt) → SameIdentity a (accepted_row input a)
unfolding accepted_row
accepted_row-SameIdentity input a = record {
  id = refl;
  settlement_id = refl;
  attempt_number = refl;
  idempotency_key = refl;
  destination_version_id = refl;
  dispatched_at = refl;
}

pub returned_row-SameIdentity :
    (input : PayoutOutcomeInput) (now : ℕ) (a : Attempt) → SameIdentity a (returned_row input now a)
unfolding returned_row
returned_row-SameIdentity input now a = record {
  id = refl;
  settlement_id = refl;
  attempt_number = refl;
  idempotency_key = refl;
  destination_version_id = refl;
  dispatched_at = refl;
}

pub unknown_row-SameIdentity : (a : Attempt) → SameIdentity a (unknown_row a)
unknown_row-SameIdentity a = record {
  id = refl;
  settlement_id = refl;
  attempt_number = refl;
  idempotency_key = refl;
  destination_version_id = refl;
  dispatched_at = refl;
}

pub follow-attempts :
    (before written : Store) (n : ℕ) (s : PayoutAttemptStatus) (x : Core.Store Value × Core.Outcome)
    → (((follow before written n s x).0.attempts ≡ before.attempts)
        × ((follow before written n s x).1 ≡ PayoutResult.raised))
      ⊎ ((follow before written n s x).0.attempts ≡ written.attempts)
unfolding follow
follow-attempts before written n s (core, Core.Outcome.ok _ _ _ _) = inr refl
follow-attempts before written n s (core, Core.Outcome.raised) = inl (refl, refl)
follow-attempts before written n s (core, Core.Outcome.settlement_not_found) = inr refl
follow-attempts before written n s (core, _) = inr refl

-- The rows of the table by which an attempt that awaits its answer is credited, and is rejected.
pub credit_legal :
    (s : PayoutAttemptStatus)
    → awaits_answer s ≡ true
    → (t : PayoutTrigger) × (i : PayoutTransitionId) × (evaluate_payout_transition (some s) t
        ≡ some (i, PayoutAttemptStatus.credited))
      × (reported ProviderOutcome.credited s ≡ some t)
unfolding awaits_answer evaluate_payout_transition reported
credit_legal PayoutAttemptStatus.submitted h = (PayoutTrigger.credited, p03, refl, refl)
credit_legal PayoutAttemptStatus.accepted h = (PayoutTrigger.credited, p03, refl, refl)
credit_legal PayoutAttemptStatus.unknown h = (PayoutTrigger.pull_resolved_credited, p06, refl, refl)
credit_legal _ h = absurd (ground arith)

pub reject_legal :
    (s : PayoutAttemptStatus)
    → awaits_answer s ≡ true
    → (t : PayoutTrigger) × (i : PayoutTransitionId) × (evaluate_payout_transition (some s) t
        ≡ some (i, PayoutAttemptStatus.rejected))
      × (reported ProviderOutcome.rejected s ≡ some t)
unfolding awaits_answer evaluate_payout_transition reported
reject_legal PayoutAttemptStatus.submitted h = (PayoutTrigger.rejected, p04, refl, refl)
reject_legal PayoutAttemptStatus.accepted h = (PayoutTrigger.rejected, p04, refl, refl)
reject_legal PayoutAttemptStatus.unknown h = (PayoutTrigger.pull_resolved_rejected, p07, refl, refl)
reject_legal _ h = absurd (ground arith)
