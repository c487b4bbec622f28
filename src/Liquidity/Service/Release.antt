-- ===== src/Liquidity/Service/Release.antt =====
-- V02 to V04 on the store: `releaseReservation` and `consumeReservation` of
-- packages/app/src/liquidity.service.ts.
use Prim.Native.String.{String}
use text.Mathlib.Text.{◌==◌ as str_eq}
use inrsettling.Base.{ℕ, Bool, true, false, ◌&&◌, Option, none, some, ◌∷◌, map, if◌then◌else◌}
use inrsettling.Base.Lists.{find}
use inrsettling.Base.Result.{Result, ok, ◌>>=◌}
use inrsettling.Liquidity.Facility.{PairedMovement}
use inrsettling.Liquidity.Reservation.{
  ReservationStatus, ReservationTrigger, ReservationEvaluation, evaluate_reservation_transition,
  release_is_noop, ReservationReleaseReason,
}
use inrsettling.Settlement.Service.Defs.{Principal}
use inrsettling.Liquidity.Service.Defs.{
  Reservation, FacilityEvent, EventType, EventPayload, Store, lock_facility, MovementIds,
  post_movement,
}
use inrsettling.Liquidity.Service.Reserve.{is_active, ServiceError, of_liquidity}

-- The active reservation of a settlement, or else its latest one.
unfoldable pub lock_reservation : Store → String → Option Reservation
unfolding is_active
lock_reservation store settlement_id =
    elim (find (λ r. str_eq r.settlement_id settlement_id && is_active r.status)
      store.reservations) [
        | none ↦ find (λ r. str_eq r.settlement_id settlement_id) store.reservations
        | some r ↦ some r
      ]

-- `UPDATE … WHERE id = … AND status = 'ACTIVE'`
unfoldable pub update_active : String → (Reservation → Reservation) → Store → Store
unfolding is_active
update_active id change store = record store {
  reservations =
      map (λ r. if str_eq r.id id && is_active r.status then change r else r) store.reservations;
}

pub data ReservationResult : Type 0 where
  done : String → Bool → ReservationResult
  reservation_not_found consumed_cannot_be_released invalid_transition : ReservationResult

unfoldable pub release_trigger : Bool → ReservationTrigger
release_trigger true = ReservationTrigger.expire
release_trigger false = ReservationTrigger.release

unfoldable pub release_event :
    Bool → Principal → ReservationReleaseReason → Reservation → FacilityEvent
release_event expired actor reason r = record {
  type = if expired then EventType.reservation_expired else EventType.reservation_released;
  subject_type = "settlement";
  subject_id = r.settlement_id;
  actor = actor;
  payload = EventPayload.released r.id reason;
}

unfoldable pub released_row :
    ReservationStatus → ReservationReleaseReason → ℕ → Reservation → Reservation
released_row to reason now r = record r {
  status = to;
  released_at = some now;
  released_reason = some reason;
}

unfoldable pub write_release :
    Store
    → Reservation
    → ReservationStatus
    → PairedMovement
    → ReservationReleaseReason
    → Bool
    → Principal
    → MovementIds
    → ℕ
    → Store
unfolding update_active released_row release_event
write_release store r to movement reason expired actor ids now =
    let moved =
      post_movement (update_active r.id (released_row to reason now) store) ids r.facility_id
        movement r.amount in
    record moved { events = release_event expired actor reason r ∷ moved.events }

unfoldable pub release_reservation :
    Store
    → String
    → ReservationReleaseReason
    → Bool
    → Principal
    → MovementIds
    → ℕ
    → Result ServiceError (Store × ReservationResult)
unfolding of_liquidity release_trigger
release_reservation store settlement_id reason expired actor ids now =
    elim (lock_reservation store settlement_id) [
      | none ↦ ok (store, ReservationResult.reservation_not_found)
      | some r ↦ elim (evaluate_reservation_transition (some r.status) (release_trigger expired)) [
        | ReservationEvaluation.consumed_cannot_be_released ↦
            ok (store, ReservationResult.consumed_cannot_be_released)
        | ReservationEvaluation.invalid_transition ↦ ok (
          store,
          (if release_is_noop r.status
              then ReservationResult.done r.id true
              else ReservationResult.invalid_transition),
        )
        | ReservationEvaluation.ok _ to movement ↦
            of_liquidity (lock_facility store r.facility_id) >>= λ found. elim found [
              | none ↦ ok (store, ReservationResult.reservation_not_found)
              | some _ ↦ ok (
                write_release store r to movement reason expired actor ids now,
                ReservationResult.done r.id false,
              )
            ]
      ]
    ]

unfoldable pub consumed_row : ℕ → Reservation → Reservation
consumed_row now r = record r { status = ReservationStatus.consumed; consumed_at = some now }

-- The facility is locked for the write; what the lock reads is not used.
unfoldable pub write_consumption : Store → Reservation → MovementIds → ℕ → Store
unfolding update_active consumed_row
write_consumption store r ids now =
    post_movement (update_active r.id (consumed_row now) store) ids r.facility_id
      PairedMovement.reservation_consumed r.amount

unfoldable pub consume_reservation :
    Store → String → MovementIds → ℕ → Result ServiceError (Store × ReservationResult)
unfolding of_liquidity
consume_reservation store settlement_id ids now = elim (lock_reservation store settlement_id) [
  | none ↦ ok (store, ReservationResult.reservation_not_found)
  | some r ↦ elim (evaluate_reservation_transition (some r.status) ReservationTrigger.consume) [
    | ReservationEvaluation.consumed_cannot_be_released ↦
        ok (store, ReservationResult.invalid_transition)
    | ReservationEvaluation.invalid_transition ↦ ok (store, ReservationResult.invalid_transition)
    | ReservationEvaluation.ok _ _ _ ↦ of_liquidity (lock_facility store r.facility_id) >>= λ _.
        ok (write_consumption store r ids now, ReservationResult.done r.id false)
  ]
]
