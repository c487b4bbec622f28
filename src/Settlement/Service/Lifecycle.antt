-- ===== src/Settlement/Service/Lifecycle.antt =====
-- What the audit trail of a settlement must hold for the settlement to be in a status.
use inrsettling.Base.{
  ◌≡◌, Bool, true, false, some, none, List, [], ◌∷◌, if◌then◌else◌, arith, ◌≢◌, ◌↔◌,
}
use inrsettling.Base.Lists.{includes, all}
use inrsettling.Settlement.Status.{SettlementStatus, SettlementStatus-discrete, is_terminal}
use inrsettling.Settlement.Vocabulary.{TransitionId, TransitionId-discrete, Trigger}
use inrsettling.Settlement.Evaluate.{from_accepts}
use inrsettling.Settlement.Evaluate.Table.{row_of}

-- The way to finality, each list with one more transition at its head.
abbrev pub to_reserved : List TransitionId
to_reserved = TransitionId.t10 ∷ TransitionId.t09 ∷ TransitionId.t08 ∷ []

abbrev pub to_confirmed : List TransitionId
to_confirmed = TransitionId.t13 ∷ TransitionId.t12 ∷ to_reserved

abbrev pub to_reconciling : List TransitionId
to_reconciling = TransitionId.t19 ∷ TransitionId.t16 ∷ TransitionId.t15 ∷ to_confirmed

-- The transitions behind a settlement that is in a status, other than an exception.
abbrev pub needs : SettlementStatus → List TransitionId
needs SettlementStatus.authorized = TransitionId.t08 ∷ []
needs SettlementStatus.liquidity_reserving = TransitionId.t09 ∷ TransitionId.t08 ∷ []
needs SettlementStatus.liquidity_reserved = to_reserved
needs SettlementStatus.drawdown_requested = TransitionId.t12 ∷ to_reserved
needs SettlementStatus.drawdown_confirmed = to_confirmed
needs SettlementStatus.payout_submitted = TransitionId.t15 ∷ to_confirmed
needs SettlementStatus.payout_confirmed = TransitionId.t16 ∷ TransitionId.t15 ∷ to_confirmed
needs SettlementStatus.reconciling = to_reconciling
needs SettlementStatus.settled = TransitionId.t20 ∷ to_reconciling
needs _ = []

-- A row of the table that lists the status leads to one whose history it completes.
unfoldable pub extends : Trigger → SettlementStatus → Bool
unfolding from_accepts SettlementStatus-discrete TransitionId-discrete row_of
extends trigger s =
    if from_accepts (some s) (row_of trigger).from
    then elim (row_of trigger).to [
      | none ↦ true
      | some to ↦ all (includes TransitionId-discrete ((row_of trigger).id ∷ needs s)) (needs to)
    ]
    else true

pub extends_always : (trigger : Trigger) (s : SettlementStatus) → extends trigger s ≡ true
unfolding extends
extends_always Trigger.create s = ground arith
extends_always _ s = ground arith

-- No row leads from an open exception to another.
pub exception_once :
    (trigger : Trigger) (s : SettlementStatus)
    → from_accepts (some s) (row_of trigger).from ≡ true
    → (row_of trigger).to ≡ some SettlementStatus.exception
    → s ≢ SettlementStatus.exception
unfolding from_accepts SettlementStatus-discrete row_of
exception_once Trigger.create s h e = ground arith
exception_once _ s h e = ground arith

-- T22 leaves from an exception only.
pub resumes_exception :
    (trigger : Trigger) (s : SettlementStatus)
    → from_accepts (some s) (row_of trigger).from ≡ true
    → (row_of trigger).id ≡ TransitionId.t22
    → s ≡ SettlementStatus.exception
unfolding from_accepts SettlementStatus-discrete row_of
resumes_exception Trigger.create s h e = ground arith
resumes_exception _ s h e = ground arith

-- No row of the table leaves from a terminal status.
pub alive_of_row :
    (trigger : Trigger) (s : SettlementStatus)
    → from_accepts (some s) (row_of trigger).from ≡ true
    → is_terminal s ≡ false
unfolding from_accepts SettlementStatus-discrete row_of is_terminal
alive_of_row Trigger.create s h = ground arith
alive_of_row _ s h = ground arith

-- A row names a status event exactly when it names a destination, T22 apart, which has an event.
pub paired_row :
    (trigger : Trigger)
    → ((row_of trigger).id ≢ TransitionId.t22
        → ((row_of trigger).status_event ≡ none) ↔ ((row_of trigger).to ≡ none))
      × ((row_of trigger).id ≡ TransitionId.t22 → (row_of trigger).status_event ≢ none)
unfolding row_of
paired_row Trigger.create = ground arith
paired_row _ = ground arith
