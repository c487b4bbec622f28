-- ===== src/Liquidity/Tests.antt =====
-- Witnesses of the theorems on liquidity: one facility, a reservation of it that is drawn, and the
-- repayment of that drawdown.
use inrsettling.Base.{◌≡◌, refl, true, false, some, none, ℕ, ◌+◌, ◌*◌, ◌⊎◌, arith}
use inrsettling.Base.Int.{pos, ◌+ℤ◌, ◌-ℤ◌, ◌≤ℤ◌, ◌<ℤ◌}
use inrsettling.Base.Result.{Result, ok, err}
use inrsettling.Money.Amount.{Currency, Currency-discrete, Money, money, subtract, compare}
use inrsettling.Liquidity.Facility.{
  FacilityStatus, available_to_settle, can_reserve, ledger_pair_for,
}
use inrsettling.Liquidity.Reservation.{evaluate_reservation_transition}
use inrsettling.Liquidity.Repayment.{
  RepaymentStatus, RepaymentSource, RepaymentTrigger, fingerprint_text,
  evaluate_repayment_transition, is_repayment_in_flight,
}
use inrsettling.Base.Decimal.{codes}
use inrsettling.Settlement.Service.Defs.{Principal}
use inrsettling.Liquidity.Service.Defs.{
  Facility, Repayment, Store, MovementIds, post_movement, lock_facility, to_facility_row,
}
use inrsettling.Liquidity.Service.Reserve.{
  ReserveInput, ReserveResult, reserve_liquidity, has_active, reserve_from, answer_reserved,
}
use inrsettling.Liquidity.Service.Release.{
  ReservationResult, consume_reservation, lock_reservation, write_consumption,
}
use inrsettling.Liquidity.Service.Repay.{
  RepaymentInput, RepaymentResult, RepaymentError, has_live_twin, in_flight, eligible_outstanding,
  request_repayment,
}
use inrsettling.Liquidity.Service.Advance.{AdvanceInput, advance_repayment}
use inrsettling.Liquidity.Service.Facilities.{
  ProjectionCheck, entries_of, create_facility, check_facility_projection,
}
use inrsettling.Liquidity.Service.Ledger.{facility_at}
use inrsettling.Liquidity.Service.Steps.{IsUnused, Step, Reach, empty_store}
use inrsettling.Liquidity.Service.Reserving.{left_of}
use inrsettling.Liquidity.Service.Agreement.{check_facility_projection-agrees}
use inrsettling.Liquidity.Service.Headroom.{reserve_liquidity-headroom}
use inrsettling.Liquidity.Service.Within.{Reach-within}
use inrsettling.Liquidity.Service.Capacity.{
  IsConfirmed, IsPosted, advance_repayment-capacity, request_repayment-covered,
  re_request_unchecked,
}

abbrev officer : Principal
officer = record { type = "user"; id = "u1" }

abbrev dollars : ℕ → Money
dollars n = money Currency.usd (pos n)

abbrev ids : MovementIds
ids = record { transfer = "t1"; debit = "e1"; credit = "e2" }

abbrev reservation_input : ReserveInput
reservation_input = record {
  facility_id = "f1";
  settlement_id = "s1";
  amount = dollars 400;
  ttl_seconds = 900;
  actor = officer;
}

abbrev repayment_input : ℕ → RepaymentInput
repayment_input n = record {
  facility_id = "f1";
  amount = dollars n;
  source = RepaymentSource.manual;
  settlement_id = some "s1";
  return_id = none;
  actor = officer;
}

abbrev advance_input : RepaymentTrigger → AdvanceInput
advance_input trigger = record {
  repayment_id = "r1";
  trigger = trigger;
  actor = officer;
  provider_reference = none;
  reason = none;
}

-- The store after a transaction that is not refused.
abbrev store_of {ℓ ℓ'} : {E : Type ℓ} {A : Type ℓ'} → Result E (Store × A) → Store
store_of (ok (store, answer)) = store
store_of (err e) = empty_store

-- The stores on the way, the newest last; to open one is to open the machine up to there.
created : Store
unfolding create_facility
created = elim (create_facility empty_store Currency.usd (dollars 1000) officer "f1") [
  | none ↦ empty_store
  | some (store, answer) ↦ store
]

reserved : Store
unfolding reserve_liquidity lock_facility to_facility_row available_to_settle subtract ◌-ℤ◌
    can_reserve compare reserve_from answer_reserved post_movement ◌+ℤ◌ ledger_pair_for
    Currency-discrete
reserved = store_of (reserve_liquidity created reservation_input "v1" ids 0)

drawn : Store
unfolding consume_reservation lock_reservation evaluate_reservation_transition write_consumption
drawn = store_of (consume_reservation reserved "s1" ids 1)

requested : Store
unfolding request_repayment evaluate_repayment_transition eligible_outstanding in_flight
requested = store_of (request_repayment drawn (repayment_input 300) "r1")

submitted : Store
unfolding advance_repayment
submitted = store_of (advance_repayment requested (advance_input RepaymentTrigger.submit) ids 2)

failed : Store
unfolding advance_repayment
failed = store_of (advance_repayment submitted (advance_input RepaymentTrigger.rejected) ids 3)

empty-IsUnused : IsUnused empty_store "f1"
unfolding entries_of
empty-IsUnused = record {
  absent = refl;
  no_entries = refl;
  no_reservations = tt;
  no_repayments = tt;
}

to_reserved : Reach empty_store reserved
unfolding reserved created
to_reserved =
    Reach.next {t = created}
      (Reach.next Reach.here (
        Step.create Currency.usd (dollars 1000) officer "f1" "f1" (omega arith) empty-IsUnused
          refl))
      (Step.reserve reservation_input "v1" ids 0 (ReserveResult.reserved "v1" (dollars 600) 900000)
        (omega arith) refl)

to_drawn : Reach empty_store drawn
unfolding drawn reserved created
to_drawn =
    Reach.next {t = reserved} to_reserved
      (Step.consume "s1" ids 1 (ReservationResult.done "v1" false) refl)

abbrev drawn_row : Facility
drawn_row = record {
  id = "f1";
  currency = Currency.usd;
  status = FacilityStatus.active;
  limit_minor = pos 1000;
  drawn_minor = pos 400;
  reserved_minor = pos 0;
}

Reach-within_example : pos 0 ≤ℤ pos 1000 -ℤ pos 400 -ℤ pos 0
unfolding drawn reserved created
Reach-within_example = Reach-within {s = drawn} "f1" {f = drawn_row} to_drawn refl

check_facility_projection-agrees_example :
    (c : ProjectionCheck) × (check_facility_projection drawn "f1" ≡ some c)
    × (c.agrees ≡ true)
    × (c.stored ≡ (pos 400, pos 0))
unfolding drawn reserved created
check_facility_projection-agrees_example =
    check_facility_projection-agrees {s = drawn} "f1" {f = drawn_row} to_drawn refl

reserve_liquidity-headroom_example :
    (f : Facility) × (facility_at created "f1" ≡ some f)
    × (f.status ≡ FacilityStatus.active)
    × (Currency.usd ≡ f.currency)
    × (pos 400 ≤ℤ left_of f)
    × (has_active created "s1" ≡ false)
    × (dollars 600 ≡ money f.currency (left_of f -ℤ pos 400))
    × (pos 0 ≤ℤ pos 600)
    × (900000 ≡ 0 + 900 * 1000)
unfolding reserved created
reserve_liquidity-headroom_example =
    reserve_liquidity-headroom created reservation_input "v1" ids 0 {store' = reserved}
      {granted = "v1"} {left = dollars 600} {expires_at = 900000} refl

request_repayment-covered_example :
    (f : Facility) × (facility_at drawn "f1" ≡ some f)
    × (Currency.usd ≡ f.currency)
    × (pos 0 <ℤ pos 300)
    × (in_flight "f1" requested.repayments ≤ℤ f.drawn_minor)
    × (requested.facilities ≡ drawn.facilities)
    × (requested.ledger ≡ drawn.ledger)
unfolding requested drawn reserved created
request_repayment-covered_example =
    request_repayment-covered drawn (repayment_input 300) "r1" {store' = requested}
      {result = RepaymentResult.done "r1" RepaymentStatus.requested false} refl refl

abbrev confirmation : AdvanceInput
confirmation = advance_input RepaymentTrigger.confirmed

advance_repayment-capacity_example :
    let store' = store_of (advance_repayment submitted confirmation ids 4) in
    ((r : Repayment) × IsConfirmed submitted confirmation r × IsPosted submitted ids r store')
    ⊎ ((¬ ((r : Repayment) × IsConfirmed submitted confirmation r))
        × (store'.facilities ≡ submitted.facilities)
        × (store'.ledger ≡ submitted.ledger))
unfolding submitted requested drawn reserved created
advance_repayment-capacity_example =
    advance_repayment-capacity submitted confirmation ids 4
      {store' = store_of (advance_repayment submitted confirmation ids 4)}
      {result = RepaymentResult.done "r1" RepaymentStatus.confirmed true} refl

abbrev failed_repayment : Repayment
failed_repayment = record {
  id = "r1";
  facility_id = "f1";
  amount = dollars 300;
  source = RepaymentSource.manual;
  settlement_id = some "s1";
  return_id = none;
  status = RepaymentStatus.failed;
  attempt = 1;
  request_fingerprint = fingerprint_text (codes "r1") 1;
  provider_reference = none;
  submitted_at = some 2;
  confirmed_at = none;
  failed_at = some 3;
}

-- Another repayment, of the facility and of no settlement, has taken all that is drawn by the time
-- the failed one is requested again.
overtaken : Store
unfolding request_repayment
overtaken =
    store_of (request_repayment failed (record (repayment_input 400) { settlement_id = none }) "r2")

re_request_unchecked_example :
    ((has_live_twin failed_repayment overtaken.repayments ≡ true)
      × (advance_repayment overtaken (advance_input RepaymentTrigger.re_request) ids 5
          ≡ err RepaymentError.duplicate_live))
    ⊎ ((has_live_twin failed_repayment overtaken.repayments ≡ false)
        × ((store' : Store) × (advance_repayment overtaken
                (advance_input RepaymentTrigger.re_request)
                ids
                5
              ≡ ok (store', RepaymentResult.done "r1" RepaymentStatus.requested false))
            × (store'.facilities ≡ overtaken.facilities)))
unfolding overtaken failed submitted requested drawn reserved created is_repayment_in_flight
re_request_unchecked_example =
    re_request_unchecked overtaken (advance_input RepaymentTrigger.re_request) ids 5
      {r = failed_repayment} refl refl refl

-- The index lets the second repayment through, and then the two in flight exceed the 400 drawn.
overdrawn :
    let store' =
      store_of (advance_repayment overtaken (advance_input RepaymentTrigger.re_request) ids 5) in
    in_flight "f1" store'.repayments ≡ pos 700
unfolding overtaken failed submitted requested drawn reserved created advance_repayment in_flight
    is_repayment_in_flight
overdrawn = refl

-- The replacement of a failed repayment, for the same settlement: the failed one stays failed.
replaced : Store
unfolding request_repayment
replaced = store_of (request_repayment failed (repayment_input 400) "r2")

replaced_refused :
    advance_repayment replaced (advance_input RepaymentTrigger.re_request) ids 5
    ≡ err RepaymentError.duplicate_live
unfolding replaced failed submitted requested drawn reserved created advance_repayment
    is_repayment_in_flight
replaced_refused = refl
