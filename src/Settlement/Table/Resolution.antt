-- ===== src/Settlement/Table/Resolution.antt =====
-- Rows T22 to T30: exceptions, cancellation and timeouts (transitions.ts).
use inrsettling.Base.{none, some, [], ◌∷◌}
use inrsettling.Settlement.Status.{SettlementStatus, StatusEvent, CompanionEvent}
use inrsettling.Settlement.Vocabulary.{TransitionId, Trigger, Guard, Transition, Stage}

unfoldable pub t22 : Transition
t22 = record {
  id = TransitionId.t22;
  from = SettlementStatus.exception ∷ [];
  trigger = Trigger.resolve_resume;
  to = none;
  guards = Guard.resolution_attributed ∷ [];
  status_event = some StatusEvent.exception_resolved;
  companion_events = [];
  companion_choice = [];
  deferred_companions = [];
}

unfoldable pub t23 : Transition
t23 = record {
  id = TransitionId.t23;
  from = SettlementStatus.exception ∷ [];
  trigger = Trigger.resolve_fail;
  to = some SettlementStatus.failed;
  guards = Guard.resolution_attributed ∷ Guard.no_value_delivered ∷ [];
  status_event = some StatusEvent.failed;
  companion_events = [];
  companion_choice =
      CompanionEvent.facility_reservation_released ∷ CompanionEvent.facility_repayment_requested
      ∷ [];
  deferred_companions = [];
}

unfoldable pub t24 : Transition
t24 = record {
  id = TransitionId.t24;
  from = SettlementStatus.exception ∷ [];
  trigger = Trigger.resolve_cancel;
  to = some SettlementStatus.cancelled;
  guards = Guard.resolution_attributed ∷ Guard.before_point_of_no_return ∷ [];
  status_event = some StatusEvent.cancelled;
  companion_events = [];
  companion_choice =
      CompanionEvent.facility_reservation_released ∷ CompanionEvent.facility_repayment_requested
      ∷ [];
  deferred_companions = [];
}

unfoldable pub t25 : Transition
t25 = record {
  id = TransitionId.t25;
  from =
      SettlementStatus.draft ∷ SettlementStatus.ready ∷ SettlementStatus.quoted
      ∷ SettlementStatus.action_required ∷ [];
  trigger = Trigger.cancel;
  to = some SettlementStatus.cancelled;
  guards = Guard.actor_may_cancel ∷ [];
  status_event = some StatusEvent.cancelled;
  companion_events = [];
  companion_choice = CompanionEvent.quote_expired ∷ [];
  deferred_companions = [];
}

unfoldable pub t26 : Transition
t26 = record {
  id = TransitionId.t26;
  from =
      SettlementStatus.authorized ∷ SettlementStatus.liquidity_reserving
      ∷ SettlementStatus.liquidity_reserved ∷ SettlementStatus.drawdown_requested
      ∷ SettlementStatus.drawdown_confirmed ∷ [];
  trigger = Trigger.request_cancellation;
  to = none;
  guards = Guard.before_point_of_no_return ∷ Guard.actor_may_cancel ∷ [];
  status_event = none;
  companion_events = CompanionEvent.settlement_cancellation_requested ∷ [];
  companion_choice = [];
  deferred_companions = [];
}

unfoldable pub t27 : Transition
t27 = record {
  id = TransitionId.t27;
  from =
      SettlementStatus.authorized ∷ SettlementStatus.liquidity_reserved
      ∷ SettlementStatus.drawdown_confirmed ∷ [];
  trigger = Trigger.cancellation_honoured;
  to = some SettlementStatus.cancelled;
  guards = Guard.cancellation_pending ∷ Guard.at_checkpoint ∷ Guard.before_point_of_no_return ∷ [];
  status_event = some StatusEvent.cancelled;
  companion_events = [];
  companion_choice =
      CompanionEvent.facility_reservation_released ∷ CompanionEvent.facility_repayment_requested
      ∷ [];
  deferred_companions = [];
}

unfoldable pub t28 : Transition
t28 = record {
  id = TransitionId.t28;
  from = SettlementStatus.liquidity_reserved ∷ [];
  trigger = Trigger.reservation_expired;
  to = some SettlementStatus.exception;
  guards = Guard.reservation_ttl_reached ∷ [];
  status_event = some StatusEvent.exception_opened;
  companion_events = CompanionEvent.facility_reservation_expired ∷ [];
  companion_choice = [];
  deferred_companions = [];
}

unfoldable pub t29 : Transition
t29 = record {
  id = TransitionId.t29;
  from = SettlementStatus.drawdown_requested ∷ [];
  trigger = Trigger.drawdown_timeout;
  to = some SettlementStatus.exception;
  guards = Guard.drawdown_sla_elapsed ∷ [];
  status_event = some StatusEvent.exception_opened;
  companion_events = [];
  companion_choice = [];
  deferred_companions = [];
}

unfoldable pub t30 : Transition
t30 = record {
  id = TransitionId.t30;
  from = SettlementStatus.reconciling ∷ [];
  trigger = Trigger.reconciliation_stalled;
  to = some SettlementStatus.exception;
  guards = Guard.reconciliation_sla_elapsed ∷ [];
  status_event = some StatusEvent.exception_opened;
  companion_events = [];
  companion_choice = [];
  deferred_companions =
      record { ref = "R04"; aggregate = "Reconciliation"; owed_by = Stage.stage_6 } ∷ [];
}
