-- ===== src/Payout/Service/Moving.antt =====
-- Every branch of `applyPayoutOutcome` and of `sweepPayoutSla` (packages/app/src/payout.service.ts)
-- moves the latest attempt along the table, or none.
use Prim.Native.String.{String}
use inrsettling.Base.{
  ℕ, ◌≡◌, refl, sym, subst, ◌⊎◌, inl, inr, true, Bool-cases, false, none, some, Option-cases, arith,
}
use inrsettling.Settlement.Service.Defs as Core
use inrsettling.Settlement.Service.Apply.{apply_transition}
use inrsettling.Payout.Attempt.{
  PayoutAttemptStatus, PayoutTrigger, PayoutTransitionId, evaluate_payout_transition, p02, p08, p05,
}
use inrsettling.Payout.Service.Defs.{
  Value, Attempt, Store, latest_attempt, update_attempt, is_well_formed_utr,
}
use inrsettling.Payout.Service.Outcome.{
  ProviderOutcome, PayoutOutcomeInput, PayoutResult, awaits_answer, is_on_the_rail, in_exception,
  credited_call, rejected_call,
}
use inrsettling.Payout.Service.Apply.{
  is_within_sla, credited_row, rejected_row, accepted_row, returned_row, unknown_row, settle_answer,
  apply_credited, apply_rejected, apply_accepted, apply_returned, apply_to_attempt,
  apply_payout_outcome, sweep_payout_sla, timeout_call,
}
use inrsettling.Payout.Service.Moves.{
  SameIdentity, Moves, reported, listed, Unmoved, Answers, credited_row-SameIdentity,
  rejected_row-SameIdentity, accepted_row-SameIdentity, returned_row-SameIdentity,
  unknown_row-SameIdentity, follow-attempts, credit_legal, reject_legal,
}

module _ (store : Store) (input : PayoutOutcomeInput) (attempt : Attempt) (now : ℕ)
    (trusted : input.trusted ≡ true)
    (found : latest_attempt store input.settlement_id ≡ some attempt) where
  settle_answer-cases :
      (status : PayoutAttemptStatus) (change : Attempt → Attempt) (call : Core.ApplyInput Value)
      → let (after, result) = settle_answer store input.settlement_id attempt status change call in
        ((after.attempts ≡ store.attempts) × (result ≡ PayoutResult.raised))
        ⊎ (after.attempts ≡ (update_attempt attempt.id change store).attempts)
  unfolding settle_answer
  settle_answer-cases status change call =
      elim (Bool-cases (in_exception store input.settlement_id)) [
        | inl y ↦ inr (rw y refl)
        | inr n ↦ rw n (
            follow-attempts store (update_attempt attempt.id change store) attempt.attempt_number
              status (apply_transition store.core call))
      ]

  -- A write by the row of the table for what was reported.
  by_row :
      (after : Store) (result : PayoutResult) (change : Attempt → Attempt) (trigger : PayoutTrigger)
      (transition : PayoutTransitionId)
      → ((a : Attempt) → SameIdentity a (change a))
      → evaluate_payout_transition (some attempt.status) trigger
        ≡ some (transition, (change attempt).status)
      → reported input.outcome attempt.status ≡ some trigger
      → after.attempts ≡ (update_attempt attempt.id change store).attempts
      → Answers store input (after, result)
  by_row after result change trigger transition keeps legal report written = inl (record {
    trusted = trusted;
    moved = record {
      attempt = attempt;
      change = change;
      trigger = trigger;
      transition = transition;
      found = found;
      keeps = keeps;
      legal = legal;
      written = written;
    };
    by_report = report;
  })

  -- A write that is legal, done or undone.
  moved :
      (s : PayoutAttemptStatus) (change : Attempt → Attempt) (call : Core.ApplyInput Value)
      (trigger : PayoutTrigger) (transition : PayoutTransitionId)
      → ((a : Attempt) → SameIdentity a (change a))
      → evaluate_payout_transition (some attempt.status) trigger
        ≡ some (transition, (change attempt).status)
      → reported input.outcome attempt.status ≡ some trigger
      → Answers store input (settle_answer store input.settlement_id attempt s change call)
  moved s change call trigger transition keeps legal report =
      elim (settle_answer-cases s change call) [
        | inl (kept, raised) ↦ inr (kept, Unmoved.rolled_back raised)
        | inr done ↦ by_row _ _ change trigger transition keeps legal report done
      ]

  -- Nothing is written, since the table has no row.
  refused :
      (result : PayoutResult)
      → listed input.outcome attempt.status ≡ none
      → Answers store input (store, result)
  refused result unlisted = inr (refl, Unmoved.not_listed attempt found unlisted)

  credit :
      input.outcome ≡ ProviderOutcome.credited
      → awaits_answer attempt.status ≡ true
      → Answers store input (
          settle_answer store input.settlement_id attempt PayoutAttemptStatus.credited
            (credited_row input now)
            (credited_call input attempt))
  unfolding credited_row
  credit o waits =
      let (t, i, legal, report) = credit_legal attempt.status waits in
      moved PayoutAttemptStatus.credited (credited_row input now) (credited_call input attempt) t i
        (credited_row-SameIdentity input now) legal (rw o report)

  reject :
      input.outcome ≡ ProviderOutcome.rejected
      → awaits_answer attempt.status ≡ true
      → Answers store input (
          settle_answer store input.settlement_id attempt PayoutAttemptStatus.rejected
            (rejected_row input now)
            (rejected_call input attempt))
  unfolding rejected_row
  reject o waits =
      let (t, i, legal, report) = reject_legal attempt.status waits in
      moved PayoutAttemptStatus.rejected (rejected_row input now) (rejected_call input attempt) t i
        (rejected_row-SameIdentity input now) legal (rw o report)

  apply_credited-Answers :
      (s : PayoutAttemptStatus)
      → attempt.status ≡ s
      → input.outcome ≡ ProviderOutcome.credited
      → is_well_formed_utr input.utr ≡ true
      → Answers store input (apply_credited store input attempt now)
  unfolding apply_credited awaits_answer reported evaluate_payout_transition
  apply_credited-Answers PayoutAttemptStatus.submitted e o y = rw (y, e) (credit o (rw e refl))
  apply_credited-Answers PayoutAttemptStatus.accepted e o y = rw (y, e) (credit o (rw e refl))
  apply_credited-Answers PayoutAttemptStatus.unknown e o y = rw (y, e) (credit o (rw e refl))
  apply_credited-Answers PayoutAttemptStatus.credited e o y = rw (y, e) (refused _ (rw (o, e) refl))
  apply_credited-Answers PayoutAttemptStatus.rejected e o y = rw (y, e) (refused _ (rw (o, e) refl))
  apply_credited-Answers PayoutAttemptStatus.returned e o y = rw (y, e) (refused _ (rw (o, e) refl))

  apply_rejected-Answers :
      (s : PayoutAttemptStatus)
      → attempt.status ≡ s
      → input.outcome ≡ ProviderOutcome.rejected
      → Answers store input (apply_rejected store input attempt now)
  unfolding apply_rejected awaits_answer reported evaluate_payout_transition
  apply_rejected-Answers PayoutAttemptStatus.submitted e o = rw e (reject o (rw e refl))
  apply_rejected-Answers PayoutAttemptStatus.accepted e o = rw e (reject o (rw e refl))
  apply_rejected-Answers PayoutAttemptStatus.unknown e o = rw e (reject o (rw e refl))
  apply_rejected-Answers PayoutAttemptStatus.credited e o = rw e (refused _ (rw (o, e) refl))
  apply_rejected-Answers PayoutAttemptStatus.rejected e o = rw e (refused _ (rw (o, e) refl))
  apply_rejected-Answers PayoutAttemptStatus.returned e o = rw e (refused _ (rw (o, e) refl))

  apply_accepted-Answers :
      (s : PayoutAttemptStatus)
      → attempt.status ≡ s
      → input.outcome ≡ ProviderOutcome.accepted
      → Answers store input (apply_accepted store input attempt)
  unfolding apply_accepted evaluate_payout_transition accepted_row reported
  apply_accepted-Answers PayoutAttemptStatus.submitted e o = rw e (
      by_row _ _ (accepted_row input) PayoutTrigger.accepted p02 (accepted_row-SameIdentity input)
        (rw e refl) (rw o refl) refl)
  apply_accepted-Answers PayoutAttemptStatus.accepted e o = rw e (refused _ (rw (o, e) refl))
  apply_accepted-Answers _ e o = rw e (refused _ (rw (o, e) refl))

  apply_returned-Answers :
      (s : PayoutAttemptStatus)
      → attempt.status ≡ s
      → input.outcome ≡ ProviderOutcome.returned
      → Answers store input (apply_returned store input attempt now)
  unfolding apply_returned evaluate_payout_transition returned_row reported
  apply_returned-Answers PayoutAttemptStatus.credited e o = rw e (
      by_row _ _ (returned_row input now) PayoutTrigger.returned p08
        (returned_row-SameIdentity input now) (rw e refl) (rw o refl) refl)
  apply_returned-Answers PayoutAttemptStatus.submitted e o = rw e (refused _ (rw (o, e) refl))
  apply_returned-Answers _ e o = rw e (refused _ (rw (o, e) refl))

  apply_to_attempt-Answers :
      (o : ProviderOutcome)
      → input.outcome ≡ o
      → Answers store input (apply_to_attempt store input attempt now o)
  unfolding apply_to_attempt apply_credited reported
  apply_to_attempt-Answers ProviderOutcome.accepted e = apply_accepted-Answers attempt.status refl e
  apply_to_attempt-Answers ProviderOutcome.rejected e = apply_rejected-Answers attempt.status refl e
  apply_to_attempt-Answers ProviderOutcome.returned e = apply_returned-Answers attempt.status refl e
  apply_to_attempt-Answers ProviderOutcome.unknown e = refused _ (rw e refl)
  apply_to_attempt-Answers ProviderOutcome.credited e =
      elim (Bool-cases (is_well_formed_utr input.utr)) [
        | inl y ↦ apply_credited-Answers attempt.status refl e y
        | inr n ↦ rw n (inr (refl, Unmoved.no_utr e n))
      ]

to_latest :
    (store : Store) (input : PayoutOutcomeInput) (attempt : Attempt) (now : ℕ)
    → input.trusted ≡ true
    → latest_attempt store input.settlement_id ≡ some attempt
    → apply_payout_outcome store input now ≡ apply_to_attempt store input attempt now input.outcome
unfolding apply_payout_outcome
to_latest store input attempt now trusted found = rw (trusted, found, apply_payout_outcome) refl

to_untrusted :
    (store : Store) (input : PayoutOutcomeInput) (now : ℕ)
    → input.trusted ≡ false
    → apply_payout_outcome store input now ≡ (store, PayoutResult.untrusted_evidence)
unfolding apply_payout_outcome
to_untrusted store input now n = rw (n, apply_payout_outcome) refl

to_nothing :
    (store : Store) (input : PayoutOutcomeInput) (now : ℕ)
    → input.trusted ≡ true
    → latest_attempt store input.settlement_id ≡ none
    → apply_payout_outcome store input now ≡ (store, PayoutResult.attempt_not_found)
unfolding apply_payout_outcome
to_nothing store input now trusted gone = rw (trusted, gone, apply_payout_outcome) refl

-- A call of applyPayoutOutcome does one of two things to the attempts. It moves the latest attempt of
-- the settlement: then the evidence was trusted, the move is the row of the table for what was
-- reported (for an UNKNOWN attempt P06 or P07, by a callback as well as by a pull), the attempt
-- keeps its identity and no other attempt changes. Or no attempt changes: then the evidence was not
-- trusted, or there is no attempt, or the table has no row for what was reported, or a credit was
-- reported without a well-formed UTR, or the transaction was rolled back by an error.
pub apply_payout_outcome-Answers :
    (store : Store) (input : PayoutOutcomeInput) (now : ℕ)
    → Answers store input (apply_payout_outcome store input now)
apply_payout_outcome-Answers store input now = elim (Bool-cases input.trusted) [
  | inr n ↦
      subst (Answers store input) (sym (to_untrusted store input now n))
        (inr (refl, Unmoved.untrusted n))
  | inl y ↦ elim (Option-cases (latest_attempt store input.settlement_id)) [
    | inl gone ↦
        subst (Answers store input) (sym (to_nothing store input now y gone))
          (inr (refl, Unmoved.no_attempt gone))
    | inr (attempt, found) ↦
        subst (Answers store input) (sym (to_latest store input attempt now y found))
          (apply_to_attempt-Answers store input attempt now y found input.outcome refl)
  ]
]

pub apply_payout_outcome-Moves :
    (store : Store) (input : PayoutOutcomeInput) (now : ℕ)
    → Moves store input.settlement_id (apply_payout_outcome store input now).0
apply_payout_outcome-Moves store input now = elim (apply_payout_outcome-Answers store input now) [
  | inl m ↦ inr m.moved
  | inr (kept, _) ↦ inl kept
]

timeout_legal :
    (s : PayoutAttemptStatus)
    → is_on_the_rail s ≡ true
    → evaluate_payout_transition (some s) PayoutTrigger.sla_elapsed
      ≡ some (p05, PayoutAttemptStatus.unknown)
unfolding is_on_the_rail evaluate_payout_transition
timeout_legal PayoutAttemptStatus.submitted h = refl
timeout_legal PayoutAttemptStatus.accepted h = refl
timeout_legal _ h = absurd (ground arith)

-- The sweep moves the latest attempt to UNKNOWN by P05, or changes no attempt.
pub sweep_payout_sla-Moves :
    (store : Store) (settlement_id : String) (actor : Core.Principal) (now : ℕ)
    → Moves store settlement_id (sweep_payout_sla store settlement_id actor now).0
unfolding sweep_payout_sla
sweep_payout_sla-Moves store settlement_id actor now =
    elim (Option-cases (latest_attempt store settlement_id)) [
      | inl gone ↦ rw (gone, sweep_payout_sla) (inl refl)
      | inr (attempt, found) ↦ elim (Bool-cases (is_on_the_rail attempt.status)) [
        | inr n ↦ rw (found, n, sweep_payout_sla) (inl refl)
        | inl y ↦ elim (Bool-cases (is_within_sla attempt now)) [
          | inl w ↦ rw (found, y, w, sweep_payout_sla) (inl refl)
          | inr late ↦
              rw (found, y, late, sweep_payout_sla)
                (elim (follow-attempts store (update_attempt attempt.id unknown_row store)
                  attempt.attempt_number PayoutAttemptStatus.unknown
                  (apply_transition store.core (timeout_call settlement_id actor attempt))) [
                    | inl (kept, _) ↦ inl kept
                    | inr done ↦ inr (record {
                      attempt = attempt;
                      change = unknown_row;
                      trigger = PayoutTrigger.sla_elapsed;
                      transition = p05;
                      found = found;
                      keeps = unknown_row-SameIdentity;
                      legal = timeout_legal attempt.status y;
                      written = done;
                    })
                  ])
        ]
      ]
    ]
