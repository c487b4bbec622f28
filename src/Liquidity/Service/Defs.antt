-- ===== src/Liquidity/Service/Defs.antt =====
-- The tables of the liquidity service and the writes to them: packages/app/src/liquidity.service.ts.
-- A transaction is a function of the store; an error that it throws rolls the store back.
use Prim.Native.String.{String}
use text.Mathlib.Text.{◌==◌ as str_eq}
use inrsettling.Base.{ℕ, Bool, Option, none, some, List, [], ◌∷◌, ◌++◌, map, if◌then◌else◌, same}
use inrsettling.Base.Lists.{find}
use inrsettling.Base.Int.{ℤ, pos, ◌+ℤ◌, ◌-ℤ◌}
use inrsettling.Base.Result.{Result, ok, ◌>>=◌}
use inrsettling.Money.Amount.{Currency, Money, money}
use inrsettling.Liquidity.Facility.{
  FacilityStatus, FacilityPosition, LiquidityError, available_to_settle, LedgerAccount,
  LedgerAccount-discrete, LedgerDirection, PairedMovement, LedgerEntry, ledger_pair_for,
}
use inrsettling.Liquidity.Reservation.{ReservationStatus, ReservationReleaseReason}
use inrsettling.Liquidity.Repayment.{
  RepaymentStatus, RepaymentSource, RepaymentTrigger, RepaymentTransitionId,
}
use inrsettling.Base.Decimal.{Text}
use inrsettling.Settlement.Service.Defs.{Principal}

-- A row of `liquidity_facilities`. Its version is never written by this service.
pub record Facility : Type 0 where
  pub id : String
  pub currency : Currency
  pub status : FacilityStatus
  pub limit_minor : ℤ
  pub drawn_minor : ℤ
  pub reserved_minor : ℤ

-- A row of `liquidity_reservations`.
pub record Reservation : Type 0 where
  pub id : String
  pub facility_id : String
  pub settlement_id : String
  pub amount : Money
  pub status : ReservationStatus
  pub expires_at : ℕ
  pub consumed_at : Option ℕ
  pub released_at : Option ℕ
  pub released_reason : Option ReservationReleaseReason

-- A row of `repayments`.
pub record Repayment : Type 0 where
  pub id : String
  pub facility_id : String
  pub amount : Money
  pub source : RepaymentSource
  pub settlement_id : Option String
  pub return_id : Option String
  pub status : RepaymentStatus
  pub attempt : ℕ
  pub request_fingerprint : Text
  pub provider_reference : Option String
  pub submitted_at : Option ℕ
  pub confirmed_at : Option ℕ
  pub failed_at : Option ℕ

pub data EventType : Type 0 where
  reservation_created reservation_released reservation_expired : EventType
  repayment_requested repayment_confirmed repayment_updated : EventType

-- What the payloads hold: of a reservation its id and its amount, or the reason of its release; of a
-- repayment its id, and its amount and source, or the transition, the status and whether capacity
-- came back.
pub data EventPayload : Type 0 where
  reserved : String → ℤ → EventPayload
  released : String → ReservationReleaseReason → EventPayload
  requested : String → ℤ → RepaymentSource → Bool → EventPayload
  advanced : String → RepaymentTransitionId → RepaymentStatus → Bool → EventPayload

pub record FacilityEvent : Type 0 where
  pub type : EventType
  pub subject_type : String
  pub subject_id : String
  pub actor : Principal
  pub payload : EventPayload

pub data AuditNote : Type 0 where
  repayment : RepaymentTrigger → RepaymentStatus → ℕ → RepaymentStatus → AuditNote
  facility_create : ℤ → Currency → AuditNote

pub record AuditEntry : Type 0 where
  pub actor : Principal
  pub subject_type : String
  pub subject_id : String
  pub note : AuditNote
  pub reason : Option String

-- Reservations, events and audit entries stand newest first, so that `ORDER BY created_at DESC` is the list's order.
pub record Store : Type 0 where
  pub facilities : List Facility
  pub reservations : List Reservation
  pub repayments : List Repayment
  pub ledger : List LedgerEntry
  pub events : List FacilityEvent
  pub audit_log : List AuditEntry

unfoldable pub to_position : Facility → FacilityPosition
to_position raw = record {
  currency = raw.currency;
  limit = money raw.currency raw.limit_minor;
  drawn = money raw.currency raw.drawn_minor;
  reserved = money raw.currency raw.reserved_minor;
}

-- `FacilityRow`: the row as it is read, with what is available of it.
pub record FacilityRow : Type 0 where
  pub raw : Facility
  pub position : FacilityPosition
  pub available : Money

unfoldable pub to_facility_row : Facility → Result LiquidityError FacilityRow
unfolding to_position
to_facility_row raw = available_to_settle (to_position raw) >>= λ available.
    ok (record { raw = raw; position = to_position raw; available = available })

-- `lockFacility` and `readFacility`: the lock is held to the end of the transaction.
unfoldable pub lock_facility : Store → String → Result LiquidityError (Option FacilityRow)
lock_facility store id = elim (find (λ f. str_eq f.id id) store.facilities) [
  | none ↦ ok none
  | some raw ↦ to_facility_row raw >>= λ row. ok (some row)
]

-- `debit === account ? amount : 0n`
unfoldable pub at_account : LedgerAccount → LedgerAccount → ℤ → ℤ
unfolding LedgerAccount-discrete
at_account a b amount = if same LedgerAccount-discrete a b then amount else pos 0

unfoldable pub delta : LedgerAccount × LedgerAccount → ℤ → LedgerAccount → ℤ
unfolding at_account
delta pair amount account = at_account pair.0 account amount -ℤ at_account pair.1 account amount

-- The ids that `newId` gives to a movement: the transfer's and those of its two entries.
pub record MovementIds : Type 0 where
  pub transfer : String
  pub debit : String
  pub credit : String

-- One row of the UPDATE.
unfoldable pub move_row : String → ℤ → ℤ → Facility → Facility
move_row id drawn_delta reserved_delta f =
    if str_eq f.id id
    then record f {
      drawn_minor = f.drawn_minor +ℤ drawn_delta;
      reserved_minor = f.reserved_minor +ℤ reserved_delta;
    }
    else f

unfoldable pub movement_entry :
    MovementIds
    → String
    → PairedMovement
    → Money
    → LedgerAccount
    → LedgerDirection
    → String
    → LedgerEntry
movement_entry ids facility_id movement amount account direction id = record {
  id = id;
  facility_id = facility_id;
  transfer_id = ids.transfer;
  movement = movement;
  account = account;
  direction = direction;
  currency = amount.currency;
  minor_units = amount.minor_units;
}

unfoldable pub movement_entries : MovementIds → String → PairedMovement → Money → List LedgerEntry
unfolding movement_entry
movement_entries ids facility_id movement amount =
    let pair = ledger_pair_for movement in
    movement_entry ids facility_id movement amount pair.0 LedgerDirection.debit ids.debit
    ∷ movement_entry ids facility_id movement amount pair.1 LedgerDirection.credit ids.credit
    ∷ []

unfoldable pub post_movement : Store → MovementIds → String → PairedMovement → Money → Store
unfolding move_row delta movement_entries
post_movement store ids facility_id movement amount =
    let pair = ledger_pair_for movement in
    record store {
      ledger = store.ledger ++ movement_entries ids facility_id movement amount;
      facilities =
          map
            (move_row facility_id (delta pair amount.minor_units LedgerAccount.drawn)
              (delta pair amount.minor_units LedgerAccount.reserved))
            store.facilities;
    }
