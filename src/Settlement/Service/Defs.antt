-- ===== src/Settlement/Service/Defs.antt =====
-- The rows, the logs and the results of the transition service
-- (packages/app/src/settlement-transition.service.ts, packages/app/src/events.ts).
use Prim.Native.String.{String}
use text.Mathlib.Text.{◌==◌ as str_eq}
use inrsettling.Base.{
  ℕ, ◌+◌, Bool, true, false, ◌&&◌, Option, none, some, List, [], ◌∷◌, ◌==◌, if◌then◌else◌, same,
}
use inrsettling.Base.Lists.{includes}
use inrsettling.Settlement.Status.{
  SettlementStatus, SettlementStatus-discrete, StatusEvent, CompanionEvent, CustomerStatus,
  is_terminal,
}
use inrsettling.Settlement.Vocabulary.{TransitionId, Trigger, Guard}
use inrsettling.Settlement.Exceptions.{ExceptionCode}
use inrsettling.Settlement.Evaluate.{GuardContext}

-- The columns that the machine computes, in both spellings.
unfoldable pub machine_owned_columns : List String
machine_owned_columns =
    "status" ∷ "customerStatus" ∷ "customer_status" ∷ "version" ∷ "exceptionEnteredFrom"
    ∷ "exception_entered_from" ∷ "openExceptionCode" ∷ "open_exception_code" ∷ []

-- `PrincipalRef`
pub record Principal : Type 0 where
  pub type : String
  pub id : String

-- A row of `settlements`: the columns of the machine, and all others as the writes made to them, the
-- latest first. What such a column holds is `unknown` in the source, here the parameter `V`.
pub record Settlement (V : Type 0) : Type 0 where
  pub id : String
  pub status : SettlementStatus
  pub customer_status : Option CustomerStatus
  pub version : ℕ
  pub exception_entered_from : Option SettlementStatus
  pub open_exception_code : Option ExceptionCode
  pub payload : List (String × V)

pub data EventType : Type 0 where
  status : StatusEvent → EventType
  companion : CompanionEvent → EventType

-- What the payload of a status event says of the move; a creation comes from nothing.
pub record Move : Type 0 where
  pub transition : TransitionId
  pub from : Option SettlementStatus
  pub to : Option SettlementStatus

-- A row of `events`; every event of this service is also put in the outbox. A payload begins with
-- the move, where there is one, and the caller's keys follow.
pub record Event (V : Type 0) : Type 0 where
  pub type : EventType
  pub subject_type : String
  pub subject_id : String
  pub actor : Principal
  pub move : Option Move
  pub payload : List (String × V)

-- A row of `audit_log`.
pub record Audit : Type 0 where
  pub actor : Principal
  pub action : Trigger
  pub subject_id : String
  pub before_status : Option SettlementStatus
  pub before_version : Option ℕ
  pub after_status : SettlementStatus
  pub transition : TransitionId
  pub reason : Option String

-- What one database transaction sees. Both logs grow at the end.
pub record Store (V : Type 0) : Type 0 where
  pub settlements : List (Settlement V)
  pub events : List (Event V)
  pub audit_log : List Audit

pub record CompanionEmission (V : Type 0) : Type 0 where
  pub type : CompanionEvent
  pub subject_type : String
  pub subject_id : String
  pub payload : List (String × V)

pub record ApplyInput (V : Type 0) : Type 0 where
  pub settlement_id : String
  pub trigger : Trigger
  pub actor : Principal
  pub guards : GuardContext
  pub expected_version : Option ℕ
  pub companions : List (CompanionEmission V)
  pub patch : List (String × V)
  pub status_event_payload : List (String × V)
  pub exception_code : Option ExceptionCode
  pub reason : Option String

-- `raised` is an error of the database or of the taxonomy, which aborts the transaction.
pub data Outcome : Type 0 where
  ok : TransitionId → SettlementStatus → Option SettlementStatus → ℕ → Outcome
  settlement_not_found : Outcome
  protected_field : List String → Outcome
  invalid_transition : SettlementStatus → Trigger → Outcome
  guard_failed : TransitionId → List Guard → Outcome
  guard_unanswered : TransitionId → List Guard → Outcome
  resume_target_unknown : TransitionId → Outcome
  stale_version : ℕ → ℕ → Outcome
  illegal_companion : List CompanionEvent → Outcome
  raised : Outcome

-- `IS DISTINCT FROM` on a status column.
unfoldable pub same_origin : Option SettlementStatus → Option SettlementStatus → Bool
unfolding SettlementStatus-discrete
same_origin none none = true
same_origin (some a) (some b) = same SettlementStatus-discrete a b
same_origin _ _ = false

abbrev pub same_status : SettlementStatus → SettlementStatus → Bool
unfolding SettlementStatus-discrete
same_status a b = same SettlementStatus-discrete a b

module _ {V : Type 0} where
  -- Entering an exception records where it came from; an open one keeps that, and is left only to
  -- there or to a failed or cancelled settlement.
  unfoldable pub keeps_origin : Settlement V → Settlement V → Bool
  unfolding same_origin SettlementStatus-discrete
  keeps_origin old new =
      if same_status old.status SettlementStatus.exception
      then same_origin new.exception_entered_from old.exception_entered_from
        && (if same_status new.status SettlementStatus.exception
            then true
            else if includes SettlementStatus-discrete
                (SettlementStatus.failed ∷ SettlementStatus.cancelled ∷ []) new.status
            then true
            else same_origin (some new.status) old.exception_entered_from)
      else if same_status new.status SettlementStatus.exception
      then same_origin new.exception_entered_from (some old.status)
      else true

  -- A change of status advances the version.
  unfoldable pub advance : Settlement V → Settlement V → Settlement V
  unfolding SettlementStatus-discrete
  advance old new =
      if same_status new.status old.status then new else record new { version = old.version + 1 }

  -- The trigger `protect_settlement_row`, in its checks on the columns of the machine: a terminal row
  -- takes no write at all. `none` is its exception. Its checks on the frozen instruction and on the
  -- point of no return read other columns.
  unfoldable pub protect_settlement_row : Settlement V → Settlement V → Option (Settlement V)
  protect_settlement_row old new =
      if is_terminal old.status
      then none
      else if keeps_origin old new
      then some (advance old new)
      else none

  -- `UPDATE settlements SET … WHERE id = … AND version = …`, each row through its trigger.
  unfoldable pub update_rows :
      (Settlement V → Bool)
      → (Settlement V → Settlement V)
      → List (Settlement V)
      → Option (List (Settlement V))
  update_rows where_ set [] = some []
  update_rows where_ set (row ∷ rows) =
      let rest = update_rows where_ set rows in
      elim rest [
        | none ↦ none
        | some rows' ↦
            if where_ row
            then elim (protect_settlement_row row (set row)) [
              | none ↦ none
              | some row' ↦ some (row' ∷ rows')
            ]
            else some (row ∷ rows')
      ]

  unfoldable pub has_id : String → Settlement V → Bool
  has_id id row = str_eq row.id id

  unfoldable pub has_id_version : String → ℕ → Settlement V → Bool
  has_id_version id version row = str_eq row.id id && row.version == version
