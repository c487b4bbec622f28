-- ===== src/Liquidity/Service/Consistency.antt =====
-- INV-23 for the operations of the service: the columns of a facility stay a cache of its ledger.
use Prim.Native.String.{String}
use inrsettling.Base.{sym, ap, ◌∙◌, ◌∷◌}
use inrsettling.Base.Lists.{All, All-map}
use inrsettling.Money.Amount.{Money}
use inrsettling.Liquidity.Facility.{PairedMovement}
use inrsettling.Settlement.Service.Defs.{Principal}
use inrsettling.Liquidity.Service.Defs.{
  Facility, Reservation, Repayment, Store, MovementIds, post_movement,
}
use inrsettling.Liquidity.Service.Reserve.{insert_reservation}
use inrsettling.Liquidity.Service.Ledger.{IsProjected}
use inrsettling.Liquidity.Service.Posting.{
  InCurrencyOf, post_movement-IsProjected, post_movement-found, moved_row-currency,
}

-- The rows agree with the ledger, and what is reserved or repaid is in its facility's currency.
pub record IsConsistent (store : Store) : Type 0 where
  pub projected : IsProjected store
  pub reservations_currency :
      All (λ (r : Reservation). InCurrencyOf store r.facility_id r.amount) store.reservations
  pub repayments_currency :
      All (λ (r : Repayment). InCurrencyOf store r.facility_id r.amount) store.repayments

-- A movement keeps the currencies of the facilities.
moved_currency :
    (store : Store) (ids : MovementIds) (facility_id : String) (movement : PairedMovement)
    (amount : Money) (id : String) (m : Money)
    → InCurrencyOf store id m
    → InCurrencyOf (post_movement store ids facility_id movement amount) id m
unfolding InCurrencyOf
moved_currency store ids facility_id movement amount id m h f' e =
    let (f, found, same_row) = post_movement-found store ids facility_id movement amount id e in
    h f found
    ∙ sym (moved_row-currency facility_id movement amount f)
    ∙ ap (λ (x : Facility). x.currency) same_row

pub post_movement-IsConsistent :
    (store : Store) (ids : MovementIds) (facility_id : String) (movement : PairedMovement)
    (amount : Money)
    → IsConsistent store
    → InCurrencyOf store facility_id amount
    → IsConsistent (post_movement store ids facility_id movement amount)
unfolding post_movement
post_movement-IsConsistent store ids facility_id movement amount h c = record {
  projected = post_movement-IsProjected store ids facility_id movement amount h.projected c;
  reservations_currency =
      All-map store.reservations
        (λ r k. moved_currency store ids facility_id movement amount r.facility_id r.amount k)
        h.reservations_currency;
  repayments_currency =
      All-map store.repayments
        (λ r k. moved_currency store ids facility_id movement amount r.facility_id r.amount k)
        h.repayments_currency;
}

pub insert_reservation-IsConsistent :
    (store : Store) (actor : Principal) (ids : MovementIds) (r : Reservation)
    → IsConsistent store
    → InCurrencyOf store r.facility_id r.amount
    → IsConsistent (insert_reservation store actor ids r)
unfolding insert_reservation post_movement IsProjected InCurrencyOf
insert_reservation-IsConsistent store actor ids r h c =
    let staged = record store { reservations = r ∷ store.reservations } in
    let k =
      post_movement-IsConsistent staged ids r.facility_id PairedMovement.reservation_created
        r.amount
        (record {
          projected = h.projected;
          reservations_currency = (c, h.reservations_currency);
          repayments_currency = h.repayments_currency;
        })
        c in
    record {
      projected = k.projected;
      reservations_currency = k.reservations_currency;
      repayments_currency = k.repayments_currency;
    }
