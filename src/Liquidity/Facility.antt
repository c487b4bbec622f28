-- ===== src/Liquidity/Facility.antt =====
-- The facility and its ledger: packages/domain/src/liquidity/facility.ts.
use Prim.Native.String.{String}
use inrsettling.Base.{Bool, true, false, not, List, [], ◌∷◌, if◌then◌else◌}
use inrsettling.Base.Int.{ℤ, pos, neg, ◌+ℤ◌, ltb_ℤ}
use inrsettling.Base.Result.{Result, ok, err, ◌>>=◌, ◌>>◌, throw_if}
use inrsettling.Money.Amount.{
  Currency, same_currency, Money, money, MoneyError, subtract, compare, Comparison,
}

pub data FacilityStatus : Type 0 where
  active suspended closed : FacilityStatus

unfoldable pub facility_accepts_new_exposure : FacilityStatus → Bool
facility_accepts_new_exposure FacilityStatus.active = true
facility_accepts_new_exposure _ = false

pub record FacilityPosition : Type 0 where
  pub currency : Currency
  pub limit : Money
  pub drawn : Money
  pub reserved : Money

-- The codes of `LiquidityError`, and the errors of money that pass through.
pub data LiquidityError : Type 0 where
  negative_availability currency_mismatch : LiquidityError
  money_error : MoneyError → LiquidityError

unfoldable pub of_money {ℓ} : {A : Type ℓ} → Result MoneyError A → Result LiquidityError A
of_money (ok a) = ok a
of_money (err e) = err (LiquidityError.money_error e)

unfoldable pub available_to_settle : FacilityPosition → Result LiquidityError Money
unfolding of_money
available_to_settle position = do
  undrawn ← of_money (subtract position.limit position.drawn)
  available ← of_money (subtract undrawn position.reserved)
  throw_if (ltb_ℤ available.minor_units (pos 0)) LiquidityError.negative_availability
  ok available

pub data CanReserve : Type 0 where
  permitted facility_not_active insufficient_availability currency_mismatch : CanReserve

-- `compare(…) < 0`
unfoldable pub is_less : Comparison → Bool
is_less Comparison.less = true
is_less _ = false

unfoldable pub can_reserve :
    FacilityPosition → FacilityStatus → Money → Result LiquidityError CanReserve
unfolding is_less facility_accepts_new_exposure of_money
can_reserve position status amount =
    if not (facility_accepts_new_exposure status)
    then ok CanReserve.facility_not_active
    else if not (same_currency amount.currency position.currency)
    then ok CanReserve.currency_mismatch
    else available_to_settle position >>= λ available.
        of_money (compare available amount) >>= λ order.
        ok (if is_less order then CanReserve.insufficient_availability else CanReserve.permitted)

pub data LedgerAccount : Type 0 where
  available reserved drawn : LedgerAccount

unfoldable pub LedgerAccount-discrete : Discrete LedgerAccount
LedgerAccount-discrete = hlevel

pub data LedgerDirection : Type 0 where
  debit credit : LedgerDirection

-- `Exclude<LedgerMovement, 'limit_changed'>`, the movements that post a pair.
pub data PairedMovement : Type 0 where
  reservation_created reservation_released reservation_expired : PairedMovement
  reservation_consumed repayment_confirmed : PairedMovement

pub record LedgerEntry : Type 0 where
  pub id : String
  pub facility_id : String
  pub transfer_id : String
  pub movement : PairedMovement
  pub account : LedgerAccount
  pub direction : LedgerDirection
  pub currency : Currency
  pub minor_units : ℤ

unfoldable pub signed : LedgerDirection → ℤ → ℤ
signed LedgerDirection.debit amount = amount
signed LedgerDirection.credit amount = neg amount

-- The switch on the account, on the two sums `drawn` and `reserved`. The contra account counts nowhere.
unfoldable pub count_entry : LedgerAccount → ℤ → ℤ → ℤ → ℤ × ℤ
count_entry LedgerAccount.reserved amount drawn_sum reserved_sum =
    (drawn_sum, reserved_sum +ℤ amount)
count_entry LedgerAccount.drawn amount drawn_sum reserved_sum = (drawn_sum +ℤ amount, reserved_sum)
count_entry LedgerAccount.available amount drawn_sum reserved_sum = (drawn_sum, reserved_sum)

-- The loop of `projectPosition`.
unfoldable pub project_onto :
    Currency → Money → ℤ × ℤ → List LedgerEntry → Result LiquidityError FacilityPosition
unfolding signed count_entry
project_onto currency limit sums [] = ok (record {
  currency = currency;
  limit = limit;
  drawn = money currency sums.0;
  reserved = money currency sums.1;
})
project_onto currency limit sums (entry ∷ entries) =
    if not (same_currency entry.currency currency)
    then err LiquidityError.currency_mismatch
    else project_onto currency limit
        (count_entry entry.account (signed entry.direction entry.minor_units) sums.0 sums.1) entries

unfoldable pub project_position :
    Currency → Money → List LedgerEntry → Result LiquidityError FacilityPosition
unfolding project_onto
project_position currency limit entries = project_onto currency limit (pos 0, pos 0) entries

pub record LedgerPair : Type 0 where
  pub from : LedgerAccount
  pub to : LedgerAccount

unfoldable pub movement_pair : PairedMovement → LedgerPair
movement_pair PairedMovement.reservation_created = record {
  from = LedgerAccount.available;
  to = LedgerAccount.reserved;
}
movement_pair PairedMovement.reservation_released = record {
  from = LedgerAccount.reserved;
  to = LedgerAccount.available;
}
movement_pair PairedMovement.reservation_expired = record {
  from = LedgerAccount.reserved;
  to = LedgerAccount.available;
}
movement_pair PairedMovement.reservation_consumed = record {
  from = LedgerAccount.reserved;
  to = LedgerAccount.drawn;
}
movement_pair PairedMovement.repayment_confirmed = record {
  from = LedgerAccount.drawn;
  to = LedgerAccount.available;
}

-- The debited account and the credited one.
unfoldable pub ledger_pair_for : PairedMovement → LedgerAccount × LedgerAccount
unfolding movement_pair
ledger_pair_for movement = let pair = movement_pair movement in (pair.to, pair.from)
