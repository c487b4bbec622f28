-- ===== src/Payout/Attempt.antt =====
-- Payout attempts: packages/domain/src/settlements/payout-attempt.ts.
use Prim.Native.String.{String}
use inrsettling.Base.{
  ℕ, ◌+◌, Bool, true, false, ◌&&◌, not, Option, none, some, List, [], ◌∷◌, ◌++◌, ◌==◌, leb,
  if◌then◌else◌, same,
}
use inrsettling.Base.Lists.{find, filter, includes}
use inrsettling.Base.Decimal.{Text, codes, show_ℕ}

pub data PayoutAttemptStatus : Type 0 where
  submitted accepted credited rejected returned unknown : PayoutAttemptStatus

unfoldable pub PayoutAttemptStatus-discrete : Discrete PayoutAttemptStatus
PayoutAttemptStatus-discrete = hlevel

unfoldable pub is_payout_attempt_terminal : PayoutAttemptStatus → Bool
unfolding PayoutAttemptStatus-discrete
is_payout_attempt_terminal status =
    includes PayoutAttemptStatus-discrete (credited ∷ rejected ∷ returned ∷ []) status

unfoldable pub is_payout_attempt_in_flight : PayoutAttemptStatus → Bool
unfolding is_payout_attempt_terminal
is_payout_attempt_in_flight status = not (is_payout_attempt_terminal status)

pub data PayoutTrigger : Type 0 where
  dispatch accepted credited rejected sla_elapsed : PayoutTrigger
  pull_resolved_credited pull_resolved_rejected returned : PayoutTrigger

unfoldable pub PayoutTrigger-discrete : Discrete PayoutTrigger
PayoutTrigger-discrete = hlevel

pub data PayoutTransitionId : Type 0 where
  p01 p02 p03 p04 p05 p06 p07 p08 : PayoutTransitionId

-- The `note` is prose and is left out.
pub record PayoutTransition : Type 0 where
  pub id : PayoutTransitionId
  pub from : List PayoutAttemptStatus
  pub trigger : PayoutTrigger
  pub to : PayoutAttemptStatus

abbrev row :
    PayoutTransitionId
    → List PayoutAttemptStatus
    → PayoutTrigger
    → PayoutAttemptStatus
    → PayoutTransition
row id from trigger to = record { id = id; from = from; trigger = trigger; to = to }

unfoldable pub payout_transitions : List PayoutTransition
payout_transitions =
    row p01 [] PayoutTrigger.dispatch submitted
    ∷ row p02 (submitted ∷ []) PayoutTrigger.accepted PayoutAttemptStatus.accepted
    ∷ row p03 (submitted ∷ PayoutAttemptStatus.accepted ∷ []) PayoutTrigger.credited
        PayoutAttemptStatus.credited
    ∷ row p04 (submitted ∷ PayoutAttemptStatus.accepted ∷ []) PayoutTrigger.rejected
        PayoutAttemptStatus.rejected
    ∷ row p05 (submitted ∷ PayoutAttemptStatus.accepted ∷ []) PayoutTrigger.sla_elapsed unknown
    ∷ row p06 (unknown ∷ []) PayoutTrigger.pull_resolved_credited PayoutAttemptStatus.credited
    ∷ row p07 (unknown ∷ []) PayoutTrigger.pull_resolved_rejected PayoutAttemptStatus.rejected
    ∷ row p08 (PayoutAttemptStatus.credited ∷ []) PayoutTrigger.returned
        PayoutAttemptStatus.returned
    ∷ []

-- `from === null ? t.from.length === 0 : t.from.includes(from)`
unfoldable pub payout_from_accepts : Option PayoutAttemptStatus → List PayoutAttemptStatus → Bool
unfolding PayoutAttemptStatus-discrete
payout_from_accepts none [] = true
payout_from_accepts none (_ ∷ _) = false
payout_from_accepts (some s) from = includes PayoutAttemptStatus-discrete from s

-- `none` is the refusal `invalid_transition`.
unfoldable pub evaluate_payout_transition :
    Option PayoutAttemptStatus → PayoutTrigger → Option (PayoutTransitionId × PayoutAttemptStatus)
unfolding payout_from_accepts payout_transitions PayoutTrigger-discrete
evaluate_payout_transition from trigger =
    elim (find
      (λ t. same PayoutTrigger-discrete t.trigger trigger && payout_from_accepts from t.from)
      payout_transitions) [ none ↦ none | some t ↦ some (t.id, t.to) ]

-- `payout:v1:<settlement>:<attempt>`
unfoldable pub key_text : Text → ℕ → Text
key_text settlement_id attempt_number =
    codes "payout:v1:" ++ (settlement_id ++ (b':' ∷ show_ℕ attempt_number))

-- `none` is the error for an attempt number that is not positive.
unfoldable pub payout_idempotency_key : String → ℕ → Option Text
unfolding key_text
payout_idempotency_key settlement_id attempt_number =
    if attempt_number == 0 then none else some (key_text (codes settlement_id) attempt_number)

pub record AttemptSummary : Type 0 where
  pub attempt_number : ℕ
  pub status : PayoutAttemptStatus

pub data AttemptAllocation : Type 0 where
  first_attempt : AttemptAllocation
  reuse_in_flight next_attempt : ℕ → AttemptAllocation
  in_flight_attempt_exists status_unknown already_credited : ℕ → AttemptAllocation
  returned_needs_replacement : ℕ → AttemptAllocation

unfoldable pub terminal_attempt_permits_another : PayoutAttemptStatus → Bool
terminal_attempt_permits_another PayoutAttemptStatus.rejected = true
terminal_attempt_permits_another _ = false

-- `xs.reduce((a, b) => (a.attemptNumber >= b.attemptNumber ? a : b))`
unfoldable pub latest_onto : AttemptSummary → List AttemptSummary → AttemptSummary
latest_onto a [] = a
latest_onto a (b ∷ bs) = latest_onto (if leb b.attempt_number a.attempt_number then a else b) bs

-- An attempt in flight is asked for again, unless nobody knows whether it went through.
unfoldable pub allocate_in_flight : AttemptSummary → AttemptAllocation
allocate_in_flight attempt = elim attempt.status [
  | unknown ↦ status_unknown attempt.attempt_number
  | _ ↦ reuse_in_flight attempt.attempt_number
]

-- Every attempt has its answer.
unfoldable pub allocate_after : AttemptSummary → AttemptAllocation
unfolding terminal_attempt_permits_another
allocate_after latest = elim latest.status [
  | PayoutAttemptStatus.credited ↦ already_credited latest.attempt_number
  | PayoutAttemptStatus.returned ↦ returned_needs_replacement latest.attempt_number
  | status ↦
      if not (terminal_attempt_permits_another status)
      then in_flight_attempt_exists latest.attempt_number
      else next_attempt (latest.attempt_number + 1)
]

unfoldable pub allocate_from :
    AttemptSummary → List AttemptSummary → List AttemptSummary → AttemptAllocation
unfolding latest_onto allocate_in_flight allocate_after
allocate_from a rest [] = allocate_after (latest_onto a rest)
allocate_from a rest (b ∷ bs) = allocate_in_flight (latest_onto b bs)

unfoldable pub allocate_attempt_number : List AttemptSummary → AttemptAllocation
unfolding allocate_from is_payout_attempt_in_flight
allocate_attempt_number [] = first_attempt
allocate_attempt_number (a ∷ rest) =
    allocate_from a rest (filter (λ x. is_payout_attempt_in_flight x.status) (a ∷ rest))
