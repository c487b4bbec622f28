-- ===== src/Liquidity/Service/Facilities.antt =====
-- `checkFacilityProjection` and `createFacility` of packages/app/src/liquidity.service.ts, with
-- `project_facility_position` of packages/db/migrations/0006_liquidity.sql.
use Prim.Native.String.{String}
use text.Mathlib.Text.{◌==◌ as str_eq}
use inrsettling.Base.{Bool, ◌&&◌, not, Option, none, some, List, [], ◌∷◌, if◌then◌else◌, same}
use inrsettling.Base.Lists.{find, filter}
use inrsettling.Base.Int.{ℤ, pos, ◌+ℤ◌, eqb_ℤ}
use inrsettling.Money.Amount.{Currency, Money, same_currency}
use inrsettling.Liquidity.Facility.{
  FacilityStatus, LedgerAccount, LedgerAccount-discrete, LedgerEntry, signed,
}
use inrsettling.Settlement.Service.Defs.{Principal}
use inrsettling.Liquidity.Service.Defs.{Facility, AuditNote, Store}

-- The entries of a facility, as `project_facility_position` reads them.
unfoldable pub entries_of : String → List LedgerEntry → List LedgerEntry
entries_of facility_id ledger = filter (λ e. str_eq e.facility_id facility_id) ledger

pub record ProjectionCheck : Type 0 where
  pub facility_id : String
  pub agrees : Bool
  pub projected : ℤ × ℤ
  pub stored : ℤ × ℤ

-- `project_facility_position` of the schema: the sum of an account over the entries of a facility.
unfoldable pub account_sum : LedgerAccount → List LedgerEntry → ℤ
unfolding LedgerAccount-discrete
account_sum account [] = pos 0
account_sum account (e ∷ es) =
    let rest = account_sum account es in
    if same LedgerAccount-discrete e.account account
    then signed e.direction e.minor_units +ℤ rest
    else rest

-- What is stored in the row against what the entries of the facility add up to.
unfoldable pub compare_row : Facility → String → List LedgerEntry → ProjectionCheck
compare_row f facility_id entries =
    let drawn = account_sum LedgerAccount.drawn entries in
    let reserved = account_sum LedgerAccount.reserved entries in
    record {
      facility_id = facility_id;
      agrees = eqb_ℤ f.drawn_minor drawn && eqb_ℤ f.reserved_minor reserved;
      projected = (drawn, reserved);
      stored = (f.drawn_minor, f.reserved_minor);
    }

-- `none` is the error for a facility that is not there.
unfoldable pub check_facility_projection : Store → String → Option ProjectionCheck
unfolding entries_of compare_row
check_facility_projection store facility_id =
    elim (find (λ f. str_eq f.id facility_id) store.facilities) [
      | none ↦ none
      | some f ↦ some (compare_row f facility_id (entries_of facility_id store.ledger))
    ]

-- The row of a new facility.
unfoldable pub new_facility : Currency → Money → String → Facility
new_facility currency limit id = record {
  id = id;
  currency = currency;
  status = FacilityStatus.active;
  limit_minor = limit.minor_units;
  drawn_minor = pos 0;
  reserved_minor = pos 0;
}

unfoldable pub insert_facility : Store → Currency → Money → Principal → String → Store
unfolding new_facility
insert_facility store currency limit actor id = record store {
  facilities = new_facility currency limit id ∷ store.facilities;
  audit_log =
      record {
        actor = actor;
        subject_type = "facility";
        subject_id = id;
        note = AuditNote.facility_create limit.minor_units currency;
        reason = none;
      }
      ∷ store.audit_log;
}

-- `none` is the error for a limit in another currency.
unfoldable pub create_facility :
    Store → Currency → Money → Principal → String → Option (Store × String)
unfolding insert_facility
create_facility store currency limit actor id =
    if not (same_currency limit.currency currency)
    then none
    else some (insert_facility store currency limit actor id, id)
