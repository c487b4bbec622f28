-- ===== src/Settlement/Projection/Agreement.antt =====
-- The projection (projection.ts), the taxonomy (exceptions.ts) and the table (transitions.ts) are
-- three hand-written lists of cases; here they are held against each other.
use Prim.Native.String.{String}
use inrsettling.Base.{◌≡◌, refl, ◌↔◌, ◌⊎◌, inl, inr, Bool, true, false, Option, none, some, arith}
use inrsettling.Settlement.Status.{SettlementStatus, CustomerStatus}
use inrsettling.Settlement.Vocabulary.{Trigger}
use inrsettling.Settlement.Evaluate.{from_accepts}
use inrsettling.Settlement.Evaluate.Table.{row_of}
use inrsettling.Settlement.Exceptions.{
  ExceptionCode, Requirement, is_customer_actionable, exception_requirement, exception_delay_note,
}
use inrsettling.Settlement.Projection.{
  CustomerProjection, project_customer_status, Affordance, cancellation_affordance,
}

-- Every code has an entry, so no lookup throws, and the customer is given a requirement exactly for
-- an exception that the customer can act on and a delay note exactly for any other.
pub exception_copy_agrees :
    (code : ExceptionCode) (beneficiary : String)
    → ((r : Requirement) × (exception_requirement code beneficiary ≡ some (some r))
        × (exception_delay_note code ≡ some none)
        × (is_customer_actionable code ≡ some true))
      ⊎ ((note : String) × (exception_requirement code beneficiary ≡ some none)
          × (exception_delay_note code ≡ some (some note))
          × (is_customer_actionable code ≡ some false))
unfolding exception_requirement exception_delay_note is_customer_actionable
exception_copy_agrees ExceptionCode.payout_rejected_destination b = inl (_, refl, refl, refl)
exception_copy_agrees ExceptionCode.payout_rejected_compliance b = inl (_, refl, refl, refl)
exception_copy_agrees _ b = inr (_, refl, refl, refl)

-- An open exception that the customer can act on.
abbrev pub open_actionable : Option ExceptionCode → Option Bool
open_actionable none = none
open_actionable (some code) = is_customer_actionable code

-- The projection answers for every status and every open exception, and it shows ACTION_REQUIRED
-- for nothing but the status ACTION_REQUIRED and an open exception that the customer can act on.
pub project_customer_status-action_required :
    (status : SettlementStatus) (code : Option ExceptionCode)
    → (p : CustomerProjection) × (project_customer_status status code ≡ some p)
      × ((p.customer_status ≡ some CustomerStatus.action_required) ↔ (
          (status ≡ SettlementStatus.action_required)
          ⊎ ((status ≡ SettlementStatus.exception) × (open_actionable code ≡ some true))))
unfolding project_customer_status
project_customer_status-action_required SettlementStatus.exception none = (_, refl, ground arith)
project_customer_status-action_required SettlementStatus.exception
      (some ExceptionCode.liquidity_unavailable) =
    (_, refl, ground arith)
project_customer_status-action_required SettlementStatus.exception (some _) =
    (_, refl, ground arith)
project_customer_status-action_required SettlementStatus.draft code = (_, refl, ground arith)
project_customer_status-action_required _ code = (_, refl, ground arith)

-- Where no cancellation is pending and the point of no return is not passed (neither time is set), the
-- customer is offered to cancel exactly in the statuses in which the table lists the trigger of a
-- cancellation, and to ask for one exactly in those in which it lists that of a request. Where the
-- point of no return is passed, the customer is offered neither, in any status.
pub cancellation_affordance-table :
    (Time : Type 0) (status : SettlementStatus) (passed : Time) (requested_at : Option Time)
    → ((cancellation_affordance {Time = Time} status none none ≡ Affordance.cancel)
        ↔ (from_accepts (some status) (row_of Trigger.cancel).from ≡ true))
      × ((cancellation_affordance {Time = Time} status none none ≡ Affordance.request_cancellation)
          ↔ (from_accepts (some status) (row_of Trigger.request_cancellation).from ≡ true))
      × (cancellation_affordance status (some passed) requested_at ≡ Affordance.nothing)
unfolding cancellation_affordance from_accepts row_of
cancellation_affordance-table Time SettlementStatus.draft passed requested_at = ground arith
cancellation_affordance-table Time _ passed requested_at = ground arith
