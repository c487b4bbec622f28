-- ===== src/Settlement/Projection.antt =====
-- What the customer is shown: packages/domain/src/settlements/projection.ts.
pub mod Agreement
use inrsettling.Base.{Bool, true, false, Option, none, some, if◌then◌else◌}
use inrsettling.Settlement.Status.{SettlementStatus, CustomerStatus}
use inrsettling.Settlement.Exceptions.{ExceptionCode, is_customer_actionable}
use mathlib.Core.Option

pub record CustomerProjection : Type 0 where
  pub customer_status : Option CustomerStatus
  pub listed : Bool
  pub delayed : Bool

abbrev pub shown : CustomerStatus → CustomerProjection
shown c = record { customer_status = some c; listed = true; delayed = false }

abbrev pub not_listed : CustomerProjection
not_listed = record { customer_status = none; listed = false; delayed = false }

-- An open exception that the customer can act on is shown as one, any other as a delay.
unfoldable pub project_exception : Bool → CustomerProjection
project_exception true = shown CustomerStatus.action_required
project_exception false = record (shown CustomerStatus.settling) { delayed = true }

-- `none` stands for the error that an exception code outside the taxonomy raises.
unfoldable pub project_customer_status :
    SettlementStatus → Option ExceptionCode → Option CustomerProjection
unfolding project_exception is_customer_actionable
project_customer_status SettlementStatus.draft code = some not_listed
project_customer_status SettlementStatus.preflighting code = some (shown CustomerStatus.ready)
project_customer_status SettlementStatus.ready code = some (shown CustomerStatus.ready)
project_customer_status SettlementStatus.quoted code = some (shown CustomerStatus.ready)
project_customer_status SettlementStatus.action_required code =
    some (shown CustomerStatus.action_required)
project_customer_status SettlementStatus.authorized code = some (shown CustomerStatus.settling)
project_customer_status SettlementStatus.liquidity_reserving code =
    some (shown CustomerStatus.settling)
project_customer_status SettlementStatus.liquidity_reserved code =
    some (shown CustomerStatus.settling)
project_customer_status SettlementStatus.drawdown_requested code =
    some (shown CustomerStatus.settling)
project_customer_status SettlementStatus.drawdown_confirmed code =
    some (shown CustomerStatus.settling)
project_customer_status SettlementStatus.payout_submitted code =
    some (shown CustomerStatus.settling)
project_customer_status SettlementStatus.payout_confirmed code =
    some (shown CustomerStatus.settling)
project_customer_status SettlementStatus.reconciling code = some (shown CustomerStatus.settling)
project_customer_status SettlementStatus.exception none = some (project_exception false)
project_customer_status SettlementStatus.exception (some code) =
    Option.map project_exception (is_customer_actionable code)
project_customer_status SettlementStatus.settled code = some (shown CustomerStatus.settled)
project_customer_status SettlementStatus.failed code = some (shown CustomerStatus.cancelled)
project_customer_status SettlementStatus.cancelled code = some (shown CustomerStatus.cancelled)

-- The materialised column.
unfoldable pub customer_status_column :
    SettlementStatus → Option ExceptionCode → Option (Option CustomerStatus)
unfolding project_customer_status
customer_status_column status code =
    Option.map (λ p. p.customer_status) (project_customer_status status code)

pub data Affordance : Type 0 where
  cancel request_cancellation requested nothing : Affordance

unfoldable pub status_affordance : SettlementStatus → Affordance
status_affordance SettlementStatus.draft = cancel
status_affordance SettlementStatus.ready = cancel
status_affordance SettlementStatus.quoted = cancel
status_affordance SettlementStatus.action_required = cancel
status_affordance SettlementStatus.authorized = request_cancellation
status_affordance SettlementStatus.liquidity_reserving = request_cancellation
status_affordance SettlementStatus.liquidity_reserved = request_cancellation
status_affordance SettlementStatus.drawdown_requested = request_cancellation
status_affordance SettlementStatus.drawdown_confirmed = request_cancellation
status_affordance _ = nothing

-- The two times are only tested for null, so their type is left open.
module _ {Time : Type 0} where
  unfoldable pub cancellation_affordance : SettlementStatus → Option Time → Option Time → Affordance
  unfolding status_affordance
  cancellation_affordance status (some _) _ = nothing
  cancellation_affordance status none (some _) = requested
  cancellation_affordance status none none = status_affordance status
