-- ===== src/Settlement/Status.antt =====
-- Settlement status and the event vocabulary: packages/domain/src/settlements/status.ts.
use inrsettling.Base.{Bool, List, [], ◌∷◌}
use inrsettling.Base.Lists.{includes}

pub data SettlementStatus : Type 0 where
  draft preflighting action_required ready quoted authorized : SettlementStatus
  liquidity_reserving liquidity_reserved drawdown_requested drawdown_confirmed : SettlementStatus
  payout_submitted payout_confirmed reconciling exception : SettlementStatus
  settled failed cancelled : SettlementStatus

unfoldable pub SettlementStatus-discrete : Discrete SettlementStatus
SettlementStatus-discrete = hlevel

abbrev pub terminal_statuses : List SettlementStatus
terminal_statuses = settled ∷ failed ∷ cancelled ∷ []

unfoldable pub is_terminal : SettlementStatus → Bool
unfolding SettlementStatus-discrete
is_terminal status = includes SettlementStatus-discrete terminal_statuses status

-- The events of `settlement.*` that say which status was entered.
pub data StatusEvent : Type 0 where
  created preflight_started ready action_required quoted authorized : StatusEvent
  liquidity_reservation_started liquidity_reserved drawdown_requested : StatusEvent
  drawdown_confirmed payout_submitted payout_confirmed reconciliation_started : StatusEvent
  settled exception_opened exception_resolved failed cancelled : StatusEvent

pub data CompanionEvent : Type 0 where
  settlement_preflight_completed settlement_cancellation_requested : CompanionEvent
  settlement_replacement_created quote_locked quote_consumed quote_expired : CompanionEvent
  quote_voided facility_reservation_created facility_reservation_released : CompanionEvent
  facility_reservation_expired facility_drawdown_confirmed : CompanionEvent
  facility_repayment_requested settlement_reconciled receipt_available : CompanionEvent

unfoldable pub CompanionEvent-discrete : Discrete CompanionEvent
CompanionEvent-discrete = hlevel

pub data CustomerStatus : Type 0 where
  ready settling settled action_required cancelled : CustomerStatus
