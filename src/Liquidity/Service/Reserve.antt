-- ===== src/Liquidity/Service/Reserve.antt =====
-- V01 on the store: `reserveLiquidity` of packages/app/src/liquidity.service.ts.
use Prim.Native.String.{String}
use text.Mathlib.Text.{◌==◌ as str_eq}
use inrsettling.Base.{ℕ, ◌+◌, ◌*◌, Bool, true, false, ◌&&◌, none, some, ◌∷◌, ◌==◌, if◌then◌else◌}
use inrsettling.Base.Lists.{any}
use inrsettling.Base.Result.{Result, ok, err, ◌>>=◌}
use inrsettling.Money.Amount.{Money}
use inrsettling.Liquidity.Facility.{LiquidityError, CanReserve, can_reserve, PairedMovement}
use inrsettling.Liquidity.Reservation.{ReservationStatus}
use inrsettling.Settlement.Service.Defs.{Principal}
use inrsettling.Liquidity.Service.Defs.{
  Reservation, FacilityEvent, EventType, EventPayload, Store, FacilityRow, lock_facility,
  MovementIds, post_movement,
}

unfoldable pub is_active : ReservationStatus → Bool
is_active ReservationStatus.active = true
is_active _ = false

pub record ReserveInput : Type 0 where
  pub facility_id : String
  pub settlement_id : String
  pub amount : Money
  pub ttl_seconds : ℕ
  pub actor : Principal

pub data ReserveResult : Type 0 where
  reserved : String → Money → ℕ → ReserveResult
  facility_not_found facility_not_active insufficient_availability : ReserveResult
  currency_mismatch already_reserved : ReserveResult

-- What the transaction throws.
pub data ServiceError : Type 0 where
  ttl_out_of_range facility_vanished : ServiceError
  liquidity : LiquidityError → ServiceError

unfoldable pub of_liquidity {ℓ} : {A : Type ℓ} → Result LiquidityError A → Result ServiceError A
of_liquidity (ok a) = ok a
of_liquidity (err e) = err (ServiceError.liquidity e)

unfoldable pub has_active : Store → String → Bool
unfolding is_active
has_active store settlement_id =
    any (λ r. str_eq r.settlement_id settlement_id && is_active r.status) store.reservations

unfoldable pub new_reservation : ReserveInput → FacilityRow → String → ℕ → Reservation
new_reservation input row id now = record {
  id = id;
  facility_id = row.raw.id;
  settlement_id = input.settlement_id;
  amount = input.amount;
  status = ReservationStatus.active;
  expires_at = now + input.ttl_seconds * 1000;
  consumed_at = none;
  released_at = none;
  released_reason = none;
}

unfoldable pub reserved_event : Principal → Reservation → FacilityEvent
reserved_event actor r = record {
  type = EventType.reservation_created;
  subject_type = "settlement";
  subject_id = r.settlement_id;
  actor = actor;
  payload = EventPayload.reserved r.id r.amount.minor_units;
}

-- The writes of a reservation that is granted.
unfoldable pub insert_reservation : Store → Principal → MovementIds → Reservation → Store
insert_reservation store actor ids r =
    let moved =
      post_movement (record store { reservations = r ∷ store.reservations }) ids r.facility_id
        PairedMovement.reservation_created r.amount in
    record moved { events = reserved_event actor r ∷ moved.events }

-- The last read; the row was there before, so `after!` holds.
unfoldable pub answer_reserved : Store → Reservation → Result ServiceError (Store × ReserveResult)
unfolding of_liquidity
answer_reserved store r = of_liquidity (lock_facility store r.facility_id) >>= λ after. elim after [
  | none ↦ err ServiceError.facility_vanished
  | some row ↦ ok (store, ReserveResult.reserved r.id row.available r.expires_at)
]

unfoldable pub reserve_from :
    Store
    → ReserveInput
    → FacilityRow
    → String
    → MovementIds
    → ℕ
    → Result ServiceError (Store × ReserveResult)
unfolding insert_reservation new_reservation has_active
reserve_from store input row id ids now =
    if has_active store input.settlement_id
    then ok (store, ReserveResult.already_reserved)
    else let r = new_reservation input row id now in
      answer_reserved (insert_reservation store input.actor ids r) r

-- `id` and `ids` are the new ids, `now` is the time of the database.
unfoldable pub reserve_liquidity :
    Store → ReserveInput → String → MovementIds → ℕ → Result ServiceError (Store × ReserveResult)
unfolding of_liquidity
reserve_liquidity store input id ids now =
    if input.ttl_seconds == 0
    then err ServiceError.ttl_out_of_range
    else of_liquidity (lock_facility store input.facility_id) >>= λ found. elim found [
      | none ↦ ok (store, ReserveResult.facility_not_found)
      | some row ↦
          of_liquidity (can_reserve row.position row.raw.status input.amount) >>= λ verdict.
          elim verdict [
            | CanReserve.permitted ↦ reserve_from store input row id ids now
            | CanReserve.facility_not_active ↦ ok (store, ReserveResult.facility_not_active)
            | CanReserve.insufficient_availability ↦
                ok (store, ReserveResult.insufficient_availability)
            | CanReserve.currency_mismatch ↦ ok (store, ReserveResult.currency_mismatch)
          ]
    ]
