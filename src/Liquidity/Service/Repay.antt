-- ===== src/Liquidity/Service/Repay.antt =====
-- Y01 on the store: `requestRepayment` of packages/app/src/liquidity.service.ts.
use Prim.Native.String.{String}
use text.Mathlib.Text.{◌==◌ as str_eq}
use inrsettling.Base.{
  Bool, true, false, ◌&&◌, not, Option, none, some, List, [], ◌∷◌, if◌then◌else◌,
}
use inrsettling.Base.Lists.{find, any}
use inrsettling.Base.Int.{ℤ, pos, ◌+ℤ◌, ◌-ℤ◌, ltb_ℤ, leb_ℤ}
use inrsettling.Base.Decimal.{codes}
use inrsettling.Base.Result.{Result, ok, err, ◌>>=◌}
use inrsettling.Money.Amount.{Money, same_currency}
use inrsettling.Liquidity.Facility.{LiquidityError}
use inrsettling.Liquidity.Repayment.{
  RepaymentStatus, RepaymentSource, RepaymentTrigger, evaluate_repayment_transition,
  is_repayment_in_flight, fingerprint_text,
}
use inrsettling.Settlement.Service.Defs.{Principal}
use inrsettling.Liquidity.Service.Defs.{
  Repayment, FacilityEvent, EventType, EventPayload, Store, FacilityRow, lock_facility,
}

-- `sum(r.amount_minor)` over the repayments of a facility that are in flight.
unfoldable pub in_flight : String → List Repayment → ℤ
in_flight facility_id [] = pos 0
in_flight facility_id (r ∷ rs) =
    let rest = in_flight facility_id rs in
    if str_eq r.facility_id facility_id && is_repayment_in_flight r.status
    then r.amount.minor_units +ℤ rest
    else rest

unfoldable pub eligible_outstanding : Store → String → ℤ
eligible_outstanding store facility_id =
    elim (find (λ f. str_eq f.id facility_id) store.facilities) [
      | none ↦ pos 0
      | some f ↦
          let eligible = f.drawn_minor -ℤ in_flight facility_id store.repayments in
          if ltb_ℤ (pos 0) eligible then eligible else pos 0
    ]

pub data RepaymentResult : Type 0 where
  done : String → RepaymentStatus → Bool → RepaymentResult
  facility_not_found currency_mismatch amount_not_positive exceeds_outstanding : RepaymentResult
  repayment_not_found invalid_transition : RepaymentResult

pub record RepaymentInput : Type 0 where
  pub facility_id : String
  pub amount : Money
  pub source : RepaymentSource
  pub settlement_id : Option String
  pub return_id : Option String
  pub actor : Principal

-- `input.settlementId ? 'settlement' : 'facility'`, and the id `input.settlementId ?? …`.
unfoldable pub subject_type_of : Option String → String
subject_type_of none = "facility"
subject_type_of (some id) = if str_eq id "" then "facility" else "settlement"

unfoldable pub subject_id_of : Option String → String → String
subject_id_of none facility_id = facility_id
subject_id_of (some id) facility_id = id

unfoldable pub requested_event : Principal → Repayment → FacilityEvent
unfolding subject_type_of subject_id_of
requested_event actor r = record {
  type = EventType.repayment_requested;
  subject_type = subject_type_of r.settlement_id;
  subject_id = subject_id_of r.settlement_id r.facility_id;
  actor = actor;
  payload = EventPayload.requested r.id r.amount.minor_units r.source false;
}

unfoldable pub add_repayment : Store → Principal → Repayment → Store
unfolding requested_event
add_repayment store actor r = record store {
  repayments = r ∷ store.repayments;
  events = requested_event actor r ∷ store.events;
}

unfoldable pub new_repayment : String → RepaymentInput → Repayment
new_repayment id input = record {
  id = id;
  facility_id = input.facility_id;
  amount = input.amount;
  source = input.source;
  settlement_id = input.settlement_id;
  return_id = input.return_id;
  status = RepaymentStatus.requested;
  attempt = 1;
  request_fingerprint = fingerprint_text (codes id) 1;
  provider_reference = none;
  submitted_at = none;
  confirmed_at = none;
  failed_at = none;
}

-- What a transaction on a repayment throws: an error of the domain, or the refusal of the unique
-- index `repayments_one_live_per_settlement_cause`.
pub data RepaymentError : Type 0 where
  duplicate_live : RepaymentError
  liquidity : LiquidityError → RepaymentError

unfoldable pub of_facility_lock {ℓ} :
    {A : Type ℓ} → Result LiquidityError A → Result RepaymentError A
of_facility_lock (ok a) = ok a
of_facility_lock (err e) = err (RepaymentError.liquidity e)

-- `WHERE settlement_id IS NOT NULL AND status <> 'FAILED'`, less the settlement.
unfoldable pub is_live : RepaymentStatus → Bool
is_live RepaymentStatus.failed = false
is_live _ = true

-- `COALESCE(return_id, '')`
unfoldable pub cause_of : Option String → String
cause_of none = ""
cause_of (some return_id) = return_id

-- The same key of the index; a row without a settlement is not in it.
unfoldable pub same_settlement : Option String → Option String → Bool
same_settlement (some s) (some t) = str_eq s t
same_settlement _ _ = false

unfoldable pub is_twin : Repayment → Repayment → Bool
unfolding is_live cause_of same_settlement
is_twin r x =
    not (str_eq x.id r.id)
    && (is_live x.status
        && (same_settlement r.settlement_id x.settlement_id
            && str_eq (cause_of r.return_id) (cause_of x.return_id)))

-- Another live row has the settlement and the cause of this one.
unfoldable pub has_live_twin : Repayment → List Repayment → Bool
unfolding is_twin
has_live_twin r rows = any (is_twin r) rows

-- What the index answers to a row that is written.
unfoldable pub is_duplicate : Repayment → List Repayment → Bool
unfolding is_live has_live_twin
is_duplicate r rows = is_live r.status && has_live_twin r rows

unfoldable pub insert_repayment : Store → Principal → Repayment → Result RepaymentError Store
unfolding add_repayment is_duplicate
insert_repayment store actor r =
    if is_duplicate r store.repayments
    then err RepaymentError.duplicate_live
    else ok (add_repayment store actor r)

-- The tests on the amount, once the facility is locked.
unfoldable pub request_from :
    Store → RepaymentInput → FacilityRow → String → Result RepaymentError (Store × RepaymentResult)
unfolding insert_repayment new_repayment
request_from store input row id =
    if not (same_currency input.amount.currency row.raw.currency)
    then ok (store, RepaymentResult.currency_mismatch)
    else if leb_ℤ input.amount.minor_units (pos 0)
    then ok (store, RepaymentResult.amount_not_positive)
    else if ltb_ℤ (eligible_outstanding store input.facility_id) input.amount.minor_units
    then ok (store, RepaymentResult.exceeds_outstanding)
    else insert_repayment store input.actor (new_repayment id input) >>= λ written.
        ok (written, RepaymentResult.done id RepaymentStatus.requested false)

-- The details of a refusal are left out.
unfoldable pub request_repayment :
    Store → RepaymentInput → String → Result RepaymentError (Store × RepaymentResult)
unfolding request_from of_facility_lock
request_repayment store input id =
    elim (evaluate_repayment_transition none RepaymentTrigger.request) [
      | none ↦ ok (store, RepaymentResult.invalid_transition)
      | some _ ↦ of_facility_lock (lock_facility store input.facility_id) >>= λ found. elim found [
        | none ↦ ok (store, RepaymentResult.facility_not_found)
        | some row ↦ request_from store input row id
      ]
    ]
