-- ===== src/Liquidity/Reservation.antt =====
-- The reservation machine, V01 to V04: packages/domain/src/liquidity/reservation.ts.
use inrsettling.Base.{
  Bool, true, false, Option, none, some, List, [], ◌∷◌, if◌then◌else◌, same, ◌&&◌,
}
use inrsettling.Base.Lists.{find, includes}
use inrsettling.Liquidity.Facility.{PairedMovement}

pub data ReservationStatus : Type 0 where
  active consumed released expired : ReservationStatus

unfoldable pub ReservationStatus-discrete : Discrete ReservationStatus
ReservationStatus-discrete = hlevel

unfoldable pub is_reservation_terminal : ReservationStatus → Bool
unfolding ReservationStatus-discrete
is_reservation_terminal status =
    includes ReservationStatus-discrete
      (ReservationStatus.consumed ∷ ReservationStatus.released ∷ ReservationStatus.expired ∷ [])
      status

pub data ReservationTrigger : Type 0 where
  reserve consume release expire : ReservationTrigger

unfoldable pub ReservationTrigger-discrete : Discrete ReservationTrigger
ReservationTrigger-discrete = hlevel

pub data ReservationTransitionId : Type 0 where
  v01 v02 v03 v04 : ReservationTransitionId

-- The `guard` column is prose and is left out. Every movement of the table posts a pair.
pub record ReservationTransition : Type 0 where
  pub id : ReservationTransitionId
  pub from : List ReservationStatus
  pub trigger : ReservationTrigger
  pub to : ReservationStatus
  pub movement : PairedMovement

unfoldable pub reservation_transitions : List ReservationTransition
reservation_transitions =
    record {
      id = v01;
      from = [];
      trigger = reserve;
      to = active;
      movement = PairedMovement.reservation_created;
    }
    ∷ record {
      id = v02;
      from = active ∷ [];
      trigger = consume;
      to = consumed;
      movement = PairedMovement.reservation_consumed;
    }
    ∷ record {
      id = v03;
      from = active ∷ [];
      trigger = release;
      to = released;
      movement = PairedMovement.reservation_released;
    }
    ∷ record {
      id = v04;
      from = active ∷ [];
      trigger = expire;
      to = expired;
      movement = PairedMovement.reservation_expired;
    }
    ∷ []

pub data ReservationEvaluation : Type 0 where
  ok : ReservationTransitionId → ReservationStatus → PairedMovement → ReservationEvaluation
  invalid_transition consumed_cannot_be_released : ReservationEvaluation

-- `from === null ? t.from.length === 0 : t.from.includes(from)`
unfoldable pub reservation_from_accepts : Option ReservationStatus → List ReservationStatus → Bool
unfolding ReservationStatus-discrete
reservation_from_accepts none [] = true
reservation_from_accepts none (_ ∷ _) = false
reservation_from_accepts (some s) from = includes ReservationStatus-discrete from s

-- `from === 'CONSUMED'`
unfoldable pub is_consumed : Option ReservationStatus → Bool
is_consumed (some consumed) = true
is_consumed _ = false

unfoldable pub gives_back : ReservationTrigger → Bool
gives_back release = true
gives_back expire = true
gives_back _ = false

unfoldable pub evaluate_reservation_transition :
    Option ReservationStatus → ReservationTrigger → ReservationEvaluation
unfolding is_consumed gives_back reservation_from_accepts reservation_transitions
    ReservationTrigger-discrete
evaluate_reservation_transition from trigger =
    if is_consumed from && gives_back trigger
    then consumed_cannot_be_released
    else elim (find
        (λ t.
          same ReservationTrigger-discrete t.trigger trigger
          && reservation_from_accepts from t.from)
        reservation_transitions) [ none ↦ invalid_transition | some t ↦ ok t.id t.to t.movement ]

unfoldable pub release_is_noop : ReservationStatus → Bool
release_is_noop released = true
release_is_noop expired = true
release_is_noop _ = false

pub data ReservationReleaseReason : Type 0 where
  settlement_cancelled settlement_failed drawdown_failed ttl_expired : ReservationReleaseReason
