-- ===== src/Settlement/Vocabulary.antt =====
-- The vocabulary of the settlement machine: packages/domain/src/settlements/transitions.ts.
use Prim.Native.String.{String}
use inrsettling.Base.{Option, List}
use inrsettling.Settlement.Status.{SettlementStatus, StatusEvent, CompanionEvent}

pub data TransitionId : Type 0 where
  t01 t02 t03 t04 t05 t06 t07 t08 t09 t10 t11 t12 t13 t14 t15 t16 t17 t18 t19 t20 : TransitionId
  t21 t22 t23 t24 t25 t26 t27 t28 t29 t30 : TransitionId

unfoldable pub TransitionId-discrete : Discrete TransitionId
TransitionId-discrete = hlevel

pub data Trigger : Type 0 where
  create run_preflight preflight_passed preflight_blocked requirement_resolved : Trigger
  attach_quote quote_expired authorize begin_reservation reservation_succeeded : Trigger
  reservation_failed request_drawdown drawdown_confirmed drawdown_failed : Trigger
  dispatch_payout payout_credited payout_rejected payout_timeout begin_reconciliation : Trigger
  reconciled_matched reconciled_mismatch resolve_resume resolve_fail resolve_cancel : Trigger
  cancel request_cancellation cancellation_honoured reservation_expired : Trigger
  drawdown_timeout reconciliation_stalled : Trigger

unfoldable pub Trigger-discrete : Discrete Trigger
Trigger-discrete = hlevel

pub data Guard : Type 0 where
  workspace_active environment_valid beneficiary_amount_purpose_present : Guard
  no_blocking_requirements has_blocking_requirements requirement_changed quote_attachable : Guard
  quote_expired_by_server_clock quote_valid_for_authorization beneficiary_verified : Guard
  destination_version_verified actor_may_authorize preflight_still_passing : Guard
  active_liquidity_facility no_cancellation_pending facility_active : Guard
  sufficient_availability active_reservation_exists provider_event_verified rail_selected : Guard
  before_point_of_no_return utr_present_and_well_formed trusted_provider_event : Guard
  rail_sla_elapsed finality_conditions_met non_zero_delta resolution_attributed : Guard
  no_value_delivered actor_may_cancel cancellation_pending at_checkpoint : Guard
  reservation_ttl_reached drawdown_sla_elapsed reconciliation_sla_elapsed : Guard

unfoldable pub Guard-discrete : Discrete Guard
Guard-discrete = hlevel

pub data Stage : Type 0 where
  stage_4 stage_5 stage_6 : Stage

unfoldable pub Stage-discrete : Discrete Stage
Stage-discrete = hlevel

-- A companion that a later stage owes. The text of `why` is documentation.
pub record DeferredCompanion : Type 0 where
  pub ref : String
  pub aggregate : String
  pub owed_by : Stage

-- A row of the table. The text of `note` is documentation; an absent `companionChoice` or
-- `deferredCompanions` is the empty list that every reader of the field takes it as.
pub record Transition : Type 0 where
  pub id : TransitionId
  pub from : List SettlementStatus
  pub trigger : Trigger
  pub to : Option SettlementStatus
  pub guards : List Guard
  pub status_event : Option StatusEvent
  pub companion_events : List CompanionEvent
  pub companion_choice : List CompanionEvent
  pub deferred_companions : List DeferredCompanion
