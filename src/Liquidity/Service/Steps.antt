-- ===== src/Liquidity/Service/Steps.antt =====
-- The transactions of packages/app/src/liquidity.service.ts as steps between stores. The row lock of
-- the facility, held to the end of each, puts them in an order. A step carries what the schema checks
-- of its input (packages/db/migrations/0006_liquidity.sql): a positive amount, a limit that is not
-- negative, and an id that no row has yet.
use Prim.Native.String.{String}
use inrsettling.Base.{ℕ, ◌≡◌, ◌≢◌, Bool, none, some, []}
use inrsettling.Base.Lists.{All}
use inrsettling.Base.Int.{pos, ◌≤ℤ◌, ◌<ℤ◌}
use inrsettling.Base.Result.{ok}
use inrsettling.Money.Amount.{Currency, Money}
use inrsettling.Liquidity.Reservation.{ReservationReleaseReason}
use inrsettling.Settlement.Service.Defs.{Principal}
use inrsettling.Liquidity.Service.Defs.{Reservation, Repayment, Store, MovementIds}
use inrsettling.Liquidity.Service.Reserve.{ReserveInput, ReserveResult, reserve_liquidity}
use inrsettling.Liquidity.Service.Release.{
  ReservationResult, release_reservation, consume_reservation,
}
use inrsettling.Liquidity.Service.Repay.{RepaymentInput, RepaymentResult, request_repayment}
use inrsettling.Liquidity.Service.Advance.{AdvanceInput, advance_repayment}
use inrsettling.Liquidity.Service.Facilities.{entries_of, create_facility}
use inrsettling.Liquidity.Service.Ledger.{facility_at}

-- No row names the id: it is new, and the foreign keys refuse a row that runs ahead of it.
pub record IsUnused (store : Store) (id : String) : Type 0 where
  pub absent : facility_at store id ≡ none
  pub no_entries : entries_of id store.ledger ≡ []
  pub no_reservations : All (λ (r : Reservation). r.facility_id ≢ id) store.reservations
  pub no_repayments : All (λ (r : Repayment). r.facility_id ≢ id) store.repayments

pub data Step (s t : Store) : Type 0 where
  create :
      (currency : Currency) (limit : Money) (actor : Principal) (id answer : String)
      → pos 0 ≤ℤ limit.minor_units
      → IsUnused s id
      → create_facility s currency limit actor id ≡ some (t, answer)
      → Step s t
  reserve :
      (input : ReserveInput) (id : String) (ids : MovementIds) (now : ℕ) (result : ReserveResult)
      → pos 0 <ℤ input.amount.minor_units
      → reserve_liquidity s input id ids now ≡ ok (t, result)
      → Step s t
  release :
      (settlement_id : String) (reason : ReservationReleaseReason) (expired : Bool)
      (actor : Principal) (ids : MovementIds) (now : ℕ) (result : ReservationResult)
      → release_reservation s settlement_id reason expired actor ids now ≡ ok (t, result)
      → Step s t
  consume :
      (settlement_id : String) (ids : MovementIds) (now : ℕ) (result : ReservationResult)
      → consume_reservation s settlement_id ids now ≡ ok (t, result)
      → Step s t
  request :
      (input : RepaymentInput) (id : String) (result : RepaymentResult)
      → request_repayment s input id ≡ ok (t, result)
      → Step s t
  advance :
      (input : AdvanceInput) (ids : MovementIds) (now : ℕ) (result : RepaymentResult)
      → advance_repayment s input ids now ≡ ok (t, result)
      → Step s t

pub data Reach (s : Store) : Store → Type 0 where
  here : Reach s s
  next : {t u : Store} → Reach s t → Step t u → Reach s u

-- What a step of each kind keeps, a history keeps.
pub Reach_inv {ℓ} :
    (P : Store → Type ℓ)
    → ((s t : Store) → Step s t → P s → P t)
    → {s t : Store} → Reach s t
    → P s
    → P t
Reach_inv P keeps here h = h
Reach_inv P keeps (next {t} {u} r st) h = keeps t u st (Reach_inv P keeps r h)

abbrev pub empty_store : Store
empty_store = record {
  facilities = [];
  reservations = [];
  repayments = [];
  ledger = [];
  events = [];
  audit_log = [];
}
