-- ===== src/Settlement/Table/Execution.antt =====
-- Rows T12 to T21: the drawdown, the payout and reconciliation (transitions.ts).
use inrsettling.Base.{some, [], ◌∷◌}
use inrsettling.Settlement.Status.{SettlementStatus, StatusEvent, CompanionEvent}
use inrsettling.Settlement.Vocabulary.{TransitionId, Trigger, Guard, Transition}

unfoldable pub t12 : Transition
t12 = record {
  id = TransitionId.t12;
  from = SettlementStatus.liquidity_reserved ∷ [];
  trigger = Trigger.request_drawdown;
  to = some SettlementStatus.drawdown_requested;
  guards = Guard.active_reservation_exists ∷ Guard.no_cancellation_pending ∷ [];
  status_event = some StatusEvent.drawdown_requested;
  companion_events = [];
  companion_choice = [];
  deferred_companions = [];
}

unfoldable pub t13 : Transition
t13 = record {
  id = TransitionId.t13;
  from = SettlementStatus.drawdown_requested ∷ [];
  trigger = Trigger.drawdown_confirmed;
  to = some SettlementStatus.drawdown_confirmed;
  guards = Guard.provider_event_verified ∷ [];
  status_event = some StatusEvent.drawdown_confirmed;
  companion_events = CompanionEvent.facility_drawdown_confirmed ∷ [];
  companion_choice = [];
  deferred_companions = [];
}

unfoldable pub t14 : Transition
t14 = record {
  id = TransitionId.t14;
  from = SettlementStatus.drawdown_requested ∷ [];
  trigger = Trigger.drawdown_failed;
  to = some SettlementStatus.exception;
  guards = Guard.provider_event_verified ∷ [];
  status_event = some StatusEvent.exception_opened;
  companion_events = CompanionEvent.facility_reservation_released ∷ [];
  companion_choice = [];
  deferred_companions = [];
}

unfoldable pub t15 : Transition
t15 = record {
  id = TransitionId.t15;
  from = SettlementStatus.drawdown_confirmed ∷ [];
  trigger = Trigger.dispatch_payout;
  to = some SettlementStatus.payout_submitted;
  guards =
      Guard.rail_selected ∷ Guard.destination_version_verified ∷ Guard.no_cancellation_pending
      ∷ Guard.before_point_of_no_return ∷ [];
  status_event = some StatusEvent.payout_submitted;
  companion_events = [];
  companion_choice = [];
  deferred_companions = [];
}

unfoldable pub t16 : Transition
t16 = record {
  id = TransitionId.t16;
  from = SettlementStatus.payout_submitted ∷ [];
  trigger = Trigger.payout_credited;
  to = some SettlementStatus.payout_confirmed;
  guards = Guard.trusted_provider_event ∷ Guard.utr_present_and_well_formed ∷ [];
  status_event = some StatusEvent.payout_confirmed;
  companion_events = [];
  companion_choice = [];
  deferred_companions = [];
}

unfoldable pub t17 : Transition
t17 = record {
  id = TransitionId.t17;
  from = SettlementStatus.payout_submitted ∷ [];
  trigger = Trigger.payout_rejected;
  to = some SettlementStatus.exception;
  guards = Guard.trusted_provider_event ∷ [];
  status_event = some StatusEvent.exception_opened;
  companion_events = [];
  companion_choice = [];
  deferred_companions = [];
}

unfoldable pub t18 : Transition
t18 = record {
  id = TransitionId.t18;
  from = SettlementStatus.payout_submitted ∷ [];
  trigger = Trigger.payout_timeout;
  to = some SettlementStatus.exception;
  guards = Guard.rail_sla_elapsed ∷ [];
  status_event = some StatusEvent.exception_opened;
  companion_events = [];
  companion_choice = [];
  deferred_companions = [];
}

unfoldable pub t19 : Transition
t19 = record {
  id = TransitionId.t19;
  from = SettlementStatus.payout_confirmed ∷ [];
  trigger = Trigger.begin_reconciliation;
  to = some SettlementStatus.reconciling;
  guards = [];
  status_event = some StatusEvent.reconciliation_started;
  companion_events = [];
  companion_choice = [];
  deferred_companions = [];
}

unfoldable pub t20 : Transition
t20 = record {
  id = TransitionId.t20;
  from = SettlementStatus.reconciling ∷ [];
  trigger = Trigger.reconciled_matched;
  to = some SettlementStatus.settled;
  guards = Guard.finality_conditions_met ∷ [];
  status_event = some StatusEvent.settled;
  companion_events = CompanionEvent.settlement_reconciled ∷ CompanionEvent.receipt_available ∷ [];
  companion_choice = [];
  deferred_companions = [];
}

unfoldable pub t21 : Transition
t21 = record {
  id = TransitionId.t21;
  from = SettlementStatus.reconciling ∷ [];
  trigger = Trigger.reconciled_mismatch;
  to = some SettlementStatus.exception;
  guards = Guard.non_zero_delta ∷ [];
  status_event = some StatusEvent.exception_opened;
  companion_events = CompanionEvent.settlement_reconciled ∷ [];
  companion_choice = [];
  deferred_companions = [];
}
