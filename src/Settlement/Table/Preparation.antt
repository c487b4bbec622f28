-- ===== src/Settlement/Table/Preparation.antt =====
-- Rows T01 to T11: from the draft to the reservation (transitions.ts).
use inrsettling.Base.{some, [], ◌∷◌}
use inrsettling.Settlement.Status.{SettlementStatus, StatusEvent, CompanionEvent}
use inrsettling.Settlement.Vocabulary.{TransitionId, Trigger, Guard, Transition}

unfoldable pub t01 : Transition
t01 = record {
  id = TransitionId.t01;
  from = [];
  trigger = Trigger.create;
  to = some SettlementStatus.draft;
  guards = Guard.workspace_active ∷ Guard.environment_valid ∷ [];
  status_event = some StatusEvent.created;
  companion_events = [];
  companion_choice = [];
  deferred_companions = [];
}

unfoldable pub t02 : Transition
t02 = record {
  id = TransitionId.t02;
  from = SettlementStatus.draft ∷ [];
  trigger = Trigger.run_preflight;
  to = some SettlementStatus.preflighting;
  guards = Guard.beneficiary_amount_purpose_present ∷ [];
  status_event = some StatusEvent.preflight_started;
  companion_events = [];
  companion_choice = [];
  deferred_companions = [];
}

unfoldable pub t03 : Transition
t03 = record {
  id = TransitionId.t03;
  from = SettlementStatus.preflighting ∷ [];
  trigger = Trigger.preflight_passed;
  to = some SettlementStatus.ready;
  guards = Guard.no_blocking_requirements ∷ [];
  status_event = some StatusEvent.ready;
  companion_events = CompanionEvent.settlement_preflight_completed ∷ [];
  companion_choice = [];
  deferred_companions = [];
}

unfoldable pub t04 : Transition
t04 = record {
  id = TransitionId.t04;
  from = SettlementStatus.preflighting ∷ [];
  trigger = Trigger.preflight_blocked;
  to = some SettlementStatus.action_required;
  guards = Guard.has_blocking_requirements ∷ [];
  status_event = some StatusEvent.action_required;
  companion_events = CompanionEvent.settlement_preflight_completed ∷ [];
  companion_choice = [];
  deferred_companions = [];
}

unfoldable pub t05 : Transition
t05 = record {
  id = TransitionId.t05;
  from = SettlementStatus.action_required ∷ [];
  trigger = Trigger.requirement_resolved;
  to = some SettlementStatus.preflighting;
  guards = Guard.requirement_changed ∷ [];
  status_event = some StatusEvent.preflight_started;
  companion_events = [];
  companion_choice = [];
  deferred_companions = [];
}

unfoldable pub t06 : Transition
t06 = record {
  id = TransitionId.t06;
  from = SettlementStatus.ready ∷ [];
  trigger = Trigger.attach_quote;
  to = some SettlementStatus.quoted;
  guards = Guard.quote_attachable ∷ [];
  status_event = some StatusEvent.quoted;
  companion_events = CompanionEvent.quote_locked ∷ [];
  companion_choice = [];
  deferred_companions = [];
}

unfoldable pub t07 : Transition
t07 = record {
  id = TransitionId.t07;
  from = SettlementStatus.quoted ∷ [];
  trigger = Trigger.quote_expired;
  to = some SettlementStatus.ready;
  guards = Guard.quote_expired_by_server_clock ∷ [];
  status_event = some StatusEvent.ready;
  companion_events = CompanionEvent.quote_expired ∷ [];
  companion_choice = [];
  deferred_companions = [];
}

unfoldable pub t08 : Transition
t08 = record {
  id = TransitionId.t08;
  from = SettlementStatus.quoted ∷ [];
  trigger = Trigger.authorize;
  to = some SettlementStatus.authorized;
  guards =
      Guard.quote_valid_for_authorization ∷ Guard.beneficiary_verified
      ∷ Guard.destination_version_verified ∷ Guard.actor_may_authorize
      ∷ Guard.preflight_still_passing ∷ Guard.active_liquidity_facility ∷ [];
  status_event = some StatusEvent.authorized;
  companion_events = CompanionEvent.quote_consumed ∷ [];
  companion_choice = [];
  deferred_companions = [];
}

unfoldable pub t09 : Transition
t09 = record {
  id = TransitionId.t09;
  from = SettlementStatus.authorized ∷ [];
  trigger = Trigger.begin_reservation;
  to = some SettlementStatus.liquidity_reserving;
  guards = Guard.facility_active ∷ Guard.no_cancellation_pending ∷ [];
  status_event = some StatusEvent.liquidity_reservation_started;
  companion_events = [];
  companion_choice = [];
  deferred_companions = [];
}

unfoldable pub t10 : Transition
t10 = record {
  id = TransitionId.t10;
  from = SettlementStatus.liquidity_reserving ∷ [];
  trigger = Trigger.reservation_succeeded;
  to = some SettlementStatus.liquidity_reserved;
  guards = Guard.sufficient_availability ∷ [];
  status_event = some StatusEvent.liquidity_reserved;
  companion_events = CompanionEvent.facility_reservation_created ∷ [];
  companion_choice = [];
  deferred_companions = [];
}

unfoldable pub t11 : Transition
t11 = record {
  id = TransitionId.t11;
  from = SettlementStatus.liquidity_reserving ∷ [];
  trigger = Trigger.reservation_failed;
  to = some SettlementStatus.exception;
  guards = [];
  status_event = some StatusEvent.exception_opened;
  companion_events = [];
  companion_choice = [];
  deferred_companions = [];
}
