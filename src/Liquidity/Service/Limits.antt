-- ===== src/Liquidity/Service/Limits.antt =====
-- INV-19 step by step: what each transaction of packages/app/src/liquidity.service.ts leaves of a
-- facility's limit.
use Prim.Native.String.{String}
use text.Mathlib.Text.{◌==◌ as str_eq}
use text.Mathlib.TextEquality.{eq_iff}
use inrsettling.Base.{ℕ, ◌≡◌, sym, ap, ◌∙◌, subst, true, inl, inr, some, ◌∷◌, arith}
use inrsettling.Base.Int.{pos, ◌-ℤ◌, -ℤ_parts, ◌≤ℤ◌}
use inrsettling.Money.Amount.{Currency, Money}
use inrsettling.Liquidity.Facility.{PairedMovement}
use inrsettling.Settlement.Service.Defs.{Principal}
use inrsettling.Liquidity.Service.Defs.{Facility, Store, MovementIds, post_movement}
use inrsettling.Liquidity.Service.Reserve.{
  ReserveInput, ReserveResult, new_reservation, insert_reservation,
}
use inrsettling.Liquidity.Service.Facilities.{new_facility, insert_facility}
use inrsettling.Liquidity.Service.Ledger.{facility_at}
use inrsettling.Liquidity.Service.Posting.{post_movement-found, find-passes}
use inrsettling.Liquidity.Service.Reserving.{left_of, lock_facility-some, can_reserve-permitted}
use inrsettling.Liquidity.Service.Granting.{IsGranted}
use inrsettling.Liquidity.Service.Projection.{find_new}
use inrsettling.Liquidity.Service.Solvency.{
  IsWithin, IsSolvent, deltas, deltas_created, moved-IsWithin,
}
use mathlib.Core.Option.{some-injective}

new_facility-IsWithin :
    (currency : Currency) (limit : Money) (id : String)
    → pos 0 ≤ℤ limit.minor_units
    → IsWithin (new_facility currency limit id)
unfolding new_facility
new_facility-IsWithin currency limit id h =
    omega (arith, -ℤ_parts limit.minor_units (pos 0), -ℤ_parts (limit.minor_units -ℤ pos 0) (pos 0))

pub created-IsSolvent :
    (s : Store) (currency : Currency) (limit : Money) (actor : Principal) (id : String)
    → pos 0 ≤ℤ limit.minor_units
    → IsSolvent s
    → IsSolvent (insert_facility s currency limit actor id)
unfolding insert_facility
created-IsSolvent s currency limit actor id positive h = record {
  within = λ other f found.
      elim (find_new (new_facility currency limit id) s.facilities other found) [
        | inl (_, e) ↦ subst IsWithin e (new_facility-IsWithin currency limit id positive)
        | inr before ↦ h.within other f before
      ];
  reservations = h.reservations;
  repayments = h.repayments;
}

-- The row that a lookup of its own id finds is the row itself.
same_row_of :
    (s : Store) (id : String) (f g : Facility)
    → facility_at s id ≡ some f
    → str_eq f.id g.id ≡ true
    → facility_at s g.id ≡ some g
    → g ≡ f
same_row_of s id f g found here own =
    let its_id =
      (eq_iff f.id id).0 (find-passes (λ (x : Facility). str_eq x.id id) s.facilities found) in
    let same_id = sym its_id ∙ (eq_iff f.id g.id).0 here in
    some-injective _ _ (sym own ∙ ap (facility_at s) (sym same_id) ∙ found)

pub granted-IsSolvent :
    {s t : Store} {input : ReserveInput} {id : String} {ids : MovementIds} {now : ℕ}
    {result : ReserveResult}
    → pos 0 ≤ℤ input.amount.minor_units
    → IsSolvent s
    → (g : IsGranted s input id ids now t result)
    → IsSolvent (insert_reservation s input.actor ids (new_reservation input g.row id now))
unfolding insert_reservation new_reservation post_movement
granted-IsSolvent {s} {t} {input} {id} {ids} {now} positive h g =
    let (found, position, _, _) = lock_facility-some s input.facility_id g.row g.locked in
    let enough = (can_reserve-permitted g.row.raw input.amount (rw position at g.permitted)).2 in
    let its_id =
      (eq_iff g.row.raw.id input.facility_id).0
        (find-passes (λ (x : Facility). str_eq x.id input.facility_id) s.facilities found) in
    let own = ap (facility_at s) its_id ∙ found in
    let staged = record s { reservations = new_reservation input g.row id now ∷ s.reservations } in
    record {
      within = λ other f' found'.
          let (f, before, moved) =
            post_movement-found staged ids g.row.raw.id PairedMovement.reservation_created
              input.amount other found' in
          subst IsWithin moved (
            moved-IsWithin g.row.raw.id PairedMovement.reservation_created input.amount f
              (h.within other f before)
              (λ here.
                subst
                  (λ (x : Facility).
                    deltas PairedMovement.reservation_created input.amount.minor_units ≤ℤ left_of x)
                  (same_row_of s other f g.row.raw before here own)
                  (subst (λ x. x ≤ℤ left_of g.row.raw)
                    (sym (deltas_created input.amount.minor_units)) enough)));
      reservations = (positive, h.reservations);
      repayments = h.repayments;
    }
