-- ===== src/Liquidity/Service/Solvency.antt =====
-- INV-19 over any history of packages/app/src/liquidity.service.ts: no facility is committed beyond
-- its limit. The schema has a CHECK for it, which is not used here: the code alone keeps it.
use Prim.Native.String.{String}
use text.Mathlib.Text.{◌==◌ as str_eq}
use inrsettling.Base.{◌≡◌, refl, sym, subst, Bool, true, false, Bool-cases, inl, inr, some, arith}
use inrsettling.Base.Lists.{All}
use inrsettling.Base.Int.{ℤ, pos, ◌+ℤ◌, ◌-ℤ◌, +ℤ_parts, -ℤ_parts, eq_of_parts, ◌≤ℤ◌}
use inrsettling.Money.Amount.{Money}
use inrsettling.Liquidity.Facility.{PairedMovement, ledger_pair_for, LedgerAccount}
use inrsettling.Liquidity.Reservation.{
  ReservationStatus, ReservationTransitionId, ReservationEvaluation,
  evaluate_reservation_transition,
}
use inrsettling.Liquidity.Service.Defs.{
  Facility, Reservation, Repayment, Store, MovementIds, delta, move_row, post_movement,
}
use inrsettling.Liquidity.Service.Ledger.{facility_at}
use inrsettling.Liquidity.Service.Posting.{moved_row, post_movement-found}
use inrsettling.Liquidity.Service.Reserving.{left_of}
use inrsettling.Liquidity.Service.Release.{release_trigger}

abbrev pub IsWithin : Facility → Type 0
IsWithin f = pos 0 ≤ℤ left_of f

-- Nothing is committed beyond a limit, and no amount that may come back is negative.
pub record IsSolvent (store : Store) : Type 0 where
  pub within : (id : String) (f : Facility) → facility_at store id ≡ some f → IsWithin f
  pub reservations : All (λ (r : Reservation). pos 0 ≤ℤ r.amount.minor_units) store.reservations
  pub repayments : All (λ (r : Repayment). pos 0 ≤ℤ r.amount.minor_units) store.repayments

-- The change of the headroom by the deltas of a movement.
left_after :
    (l d r x y : ℤ) → let left = l -ℤ (d +ℤ x) -ℤ (r +ℤ y) in left +ℤ (x +ℤ y) ≡ l -ℤ d -ℤ r
left_after l d r x y = eq_of_parts _ _ (
    omega (
      arith,
      +ℤ_parts d x,
      +ℤ_parts r y,
      +ℤ_parts x y,
      -ℤ_parts l (d +ℤ x),
      -ℤ_parts (l -ℤ (d +ℤ x)) (r +ℤ y),
      +ℤ_parts (l -ℤ (d +ℤ x) -ℤ (r +ℤ y)) (x +ℤ y),
      -ℤ_parts l d,
      -ℤ_parts (l -ℤ d) r,
    ))

-- A movement that commits nothing new: all but the creation of a reservation.
abbrev pub Commits : PairedMovement → Type 0
Commits movement = movement ≡ PairedMovement.reservation_created

pub deltas : PairedMovement → ℤ → ℤ
deltas movement amount =
    let pair = ledger_pair_for movement in
    delta pair amount LedgerAccount.drawn +ℤ delta pair amount LedgerAccount.reserved

deltas_le :
    (movement : PairedMovement) (amount : ℤ)
    → ¬ Commits movement
    → pos 0 ≤ℤ amount
    → deltas movement amount ≤ℤ pos 0
unfolding deltas delta ledger_pair_for ◌+ℤ◌ ◌-ℤ◌
deltas_le PairedMovement.reservation_created a c h = absurd (c refl)
deltas_le PairedMovement.reservation_released a c h = ground arith
deltas_le PairedMovement.reservation_expired a c h = ground arith
deltas_le PairedMovement.reservation_consumed a c h = ground arith
deltas_le PairedMovement.repayment_confirmed a c h = ground arith

pub deltas_created : (amount : ℤ) → deltas PairedMovement.reservation_created amount ≡ amount
unfolding deltas delta ledger_pair_for ◌+ℤ◌ ◌-ℤ◌
deltas_created a = ground arith

module _ (facility_id : String) (movement : PairedMovement) (amount : Money) (f : Facility) where
  moved_left :
      str_eq f.id facility_id ≡ true
      → left_of (moved_row facility_id movement amount f) +ℤ deltas movement amount.minor_units
        ≡ left_of f
  unfolding move_row deltas
  moved_left here = rw here (left_after f.limit_minor f.drawn_minor f.reserved_minor _ _)

  moved_elsewhere : str_eq f.id facility_id ≡ false → moved_row facility_id movement amount f ≡ f
  unfolding move_row
  moved_elsewhere n = rw n refl

  -- A row stays within its limit if the movement commits nothing, or no more than is left.
  pub moved-IsWithin :
      IsWithin f
      → (str_eq f.id facility_id ≡ true → deltas movement amount.minor_units ≤ℤ left_of f)
      → IsWithin (moved_row facility_id movement amount f)
  moved-IsWithin h enough = elim (Bool-cases (str_eq f.id facility_id)) [
    | inr n ↦ subst IsWithin (sym (moved_elsewhere n)) h
    | inl y ↦
        let left = left_of (moved_row facility_id movement amount f) in
        let room =
          subst (λ x. deltas movement amount.minor_units ≤ℤ x) (sym (moved_left y)) (enough y) in
        omega (arith, +ℤ_parts left (deltas movement amount.minor_units))
  ]

pub post_movement-IsWithin :
    (store : Store) (ids : MovementIds) (facility_id : String) (movement : PairedMovement)
    (amount : Money)
    → ¬ Commits movement
    → pos 0 ≤ℤ amount.minor_units
    → ((id : String) (f : Facility) → facility_at store id ≡ some f → IsWithin f)
    → (id : String) (f : Facility)
    → facility_at (post_movement store ids facility_id movement amount) id ≡ some f
    → IsWithin f
post_movement-IsWithin store ids facility_id movement amount c a h id f' found =
    let (f, before, same_row) =
      post_movement-found store ids facility_id movement amount id found in
    let le = deltas_le movement amount.minor_units c a in
    let within = h id f before in
    subst IsWithin same_row (moved-IsWithin facility_id movement amount f within (λ _. omega arith))

-- A release posts a movement that commits nothing.
pub release_movement :
    (status : ReservationStatus) (expired : Bool) {id : ReservationTransitionId}
    {to : ReservationStatus} {movement : PairedMovement}
    → evaluate_reservation_transition (some status) (release_trigger expired)
      ≡ ReservationEvaluation.ok id to movement
    → ¬ Commits movement
unfolding evaluate_reservation_transition release_trigger
release_movement ReservationStatus.active true e = ground arith
release_movement _ true e = ground arith
release_movement _ false e = ground arith
