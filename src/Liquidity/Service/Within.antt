-- ===== src/Liquidity/Service/Within.antt =====
-- Every step of packages/app/src/liquidity.service.ts keeps each facility within its limit (INV-19).
use Prim.Native.String.{String}
use text.Mathlib.Text.{◌==◌ as str_eq}
use inrsettling.Base.{
  ℕ, ◌≡◌, ◌≢◌, refl, subst, Bool, inl, inr, Option, some, ◌&&◌, arith, Bool-cases,
}
use inrsettling.Base.Int.{pos, ◌-ℤ◌, ◌≤ℤ◌}
use inrsettling.Money.Amount.{Money}
use inrsettling.Liquidity.Facility.{PairedMovement}
use inrsettling.Liquidity.Reservation.{ReservationStatus, ReservationReleaseReason}
use inrsettling.Liquidity.Repayment.{RepaymentEvaluation}
use inrsettling.Settlement.Service.Defs.{Principal}
use inrsettling.Liquidity.Service.Defs.{
  Facility, Reservation, Repayment, Store, MovementIds, post_movement,
}
use inrsettling.Liquidity.Service.Reserve.{new_reservation, insert_reservation, is_active}
use inrsettling.Liquidity.Service.Release.{
  update_active, released_row, consumed_row, write_release, write_consumption,
}
use inrsettling.Liquidity.Service.Repay.{RepaymentInput, add_repayment, new_repayment}
use inrsettling.Liquidity.Service.Advance.{AdvanceInput, advanced_row, write_repayment, restore}
use inrsettling.Liquidity.Service.Ledger.{facility_at}
use inrsettling.Liquidity.Service.Updating.{All-find, All-mapped, keeps_where}
use inrsettling.Liquidity.Service.Granting.{Outcome, reserve_outcome, answered_with}
use inrsettling.Liquidity.Service.Operations.{
  release_reservation-cases, consume_reservation-cases, locked-All,
}
use inrsettling.Liquidity.Service.Repaying.{
  IsRequested, request_repayment-cases, advance_repayment-cases,
}
use inrsettling.Liquidity.Service.Projection.{create_facility-some}
use inrsettling.Liquidity.Service.Solvency.{IsSolvent, post_movement-IsWithin, release_movement}
use inrsettling.Liquidity.Service.Steps.{
  Step, create, reserve, release, consume, request, advance, Reach, Reach_inv, empty_store,
}
use inrsettling.Liquidity.Service.Limits.{created-IsSolvent, granted-IsSolvent}

-- A change of the reservations that keeps their amounts.
updated_reservations :
    (s : Store) (id : String) (change : Reservation → Reservation)
    → ((r : Reservation) → (change r).amount ≡ r.amount)
    → IsSolvent s
    → IsSolvent (update_active id change s)
unfolding update_active
updated_reservations s id change same_amount h = record {
  within = h.within;
  reservations =
      All-mapped (λ (r : Reservation). pos 0 ≤ℤ r.amount.minor_units) _ s.reservations
        (λ r k.
          keeps_where (λ (x : Reservation). pos 0 ≤ℤ x.amount.minor_units)
            (str_eq r.id id && is_active r.status) r (change r) k (rw (same_amount r) k))
        h.reservations;
  repayments = h.repayments;
}

moved-IsSolvent :
    (s : Store) (ids : MovementIds) (facility_id : String) (movement : PairedMovement)
    (amount : Money)
    → movement ≢ PairedMovement.reservation_created
    → pos 0 ≤ℤ amount.minor_units
    → IsSolvent s
    → IsSolvent (post_movement s ids facility_id movement amount)
unfolding post_movement
moved-IsSolvent s ids facility_id movement amount c positive h = record {
  within = post_movement-IsWithin s ids facility_id movement amount c positive h.within;
  reservations = h.reservations;
  repayments = h.repayments;
}

write_release-IsSolvent :
    (s : Store) (r : Reservation) (to : ReservationStatus) (movement : PairedMovement)
    (reason : ReservationReleaseReason) (expired : Bool) (actor : Principal) (ids : MovementIds)
    (now : ℕ)
    → movement ≢ PairedMovement.reservation_created
    → pos 0 ≤ℤ r.amount.minor_units
    → IsSolvent s
    → IsSolvent (write_release s r to movement reason expired actor ids now)
unfolding write_release released_row update_active post_movement
write_release-IsSolvent s r to movement reason expired actor ids now c positive h =
    let k =
      moved-IsSolvent (update_active r.id (released_row to reason now) s) ids r.facility_id movement
        r.amount c positive
        (updated_reservations s r.id (released_row to reason now) (λ x. refl) h) in
    record { within = k.within; reservations = k.reservations; repayments = k.repayments }

write_consumption-IsSolvent :
    (s : Store) (r : Reservation) (ids : MovementIds) (now : ℕ)
    → pos 0 ≤ℤ r.amount.minor_units
    → IsSolvent s
    → IsSolvent (write_consumption s r ids now)
unfolding write_consumption consumed_row
write_consumption-IsSolvent s r ids now positive h =
    moved-IsSolvent (update_active r.id (consumed_row now) s) ids r.facility_id
      PairedMovement.reservation_consumed r.amount (λ e. cc) positive
      (updated_reservations s r.id (consumed_row now) (λ x. refl) h)

requested-IsSolvent :
    {s t : Store} {input : RepaymentInput} {id : String}
    → IsRequested s input id t
    → IsSolvent s
    → IsSolvent (add_repayment s input.actor (new_repayment id input))
unfolding add_repayment new_repayment
requested-IsSolvent {s} {t} {input} g h =
    let positive = g.positive in
    record {
      within = h.within;
      reservations = h.reservations;
      repayments = (omega arith, h.repayments);
    }

advanced_row-amount :
    (e : RepaymentEvaluation) (reference : Option String) (now : ℕ) (r : Repayment)
    → (advanced_row e reference now r).amount ≡ r.amount
unfolding advanced_row
advanced_row-amount e reference now r = elim (Bool-cases e.requires_new_fingerprint) [
  | inl y ↦ rw y refl
  | inr n ↦ rw n refl
]

updated_repayments :
    (s : Store) (id : String) (e : RepaymentEvaluation) (reference : Option String) (now : ℕ)
    → IsSolvent s
    → IsSolvent (write_repayment id e reference now s)
unfolding write_repayment
updated_repayments s id e reference now h = record {
  within = h.within;
  reservations = h.reservations;
  repayments =
      All-mapped (λ (r : Repayment). pos 0 ≤ℤ r.amount.minor_units) _ s.repayments
        (λ r k.
          keeps_where (λ (x : Repayment). pos 0 ≤ℤ x.amount.minor_units) (str_eq r.id id) r
            (advanced_row e reference now r) k (rw (advanced_row-amount e reference now r) k))
        h.repayments;
}

restore-IsSolvent :
    (input : AdvanceInput) (e : RepaymentEvaluation) (r : Repayment) (ids : MovementIds) (s : Store)
    → pos 0 ≤ℤ r.amount.minor_units
    → IsSolvent s
    → IsSolvent (restore input e r ids s)
unfolding restore
restore-IsSolvent input e r ids s positive h =
    let k =
      keeps_where IsSolvent e.restores_capacity s
        (post_movement s ids r.facility_id PairedMovement.repayment_confirmed r.amount) h
        (moved-IsSolvent s ids r.facility_id PairedMovement.repayment_confirmed r.amount (λ x. cc)
          positive h) in
    record { within = k.within; reservations = k.reservations; repayments = k.repayments }

Step-IsSolvent : (s t : Store) → Step s t → IsSolvent s → IsSolvent t
unfolding Outcome
Step-IsSolvent s t (create currency limit actor id answer positive unused run) h =
    subst IsSolvent (create_facility-some s t currency limit actor id run)
      (created-IsSolvent s currency limit actor id positive h)
Step-IsSolvent s t (reserve input id ids now result positive run) h =
    elim (reserve_outcome s input id ids now t result run) [
      | inl (e, _) ↦ subst IsSolvent e h
      | inr g ↦
          let r = new_reservation input g.row id now in
          let (_, _, e, _) = answered_with (insert_reservation s input.actor ids r) r g.answered in
          subst IsSolvent e (granted-IsSolvent (omega arith) h g)
    ]
Step-IsSolvent s t (release settlement reason expired actor ids now result run) h =
    elim (release_reservation-cases s settlement reason expired actor ids now run) [
      | inl e ↦ subst IsSolvent e h
      | inr g ↦ subst IsSolvent g.written (
          write_release-IsSolvent s g.reservation g.to g.movement reason expired actor ids now
            (release_movement g.reservation.status expired g.evaluated)
            (locked-All _ s settlement g.reservation h.reservations g.found) h)
    ]
Step-IsSolvent s t (consume settlement ids now result run) h =
    elim (consume_reservation-cases s settlement ids now run) [
      | inl e ↦ subst IsSolvent e h
      | inr g ↦ subst IsSolvent g.written (
          write_consumption-IsSolvent s g.reservation ids now
            (locked-All _ s settlement g.reservation h.reservations g.found) h)
    ]
Step-IsSolvent s t (request input id result run) h = elim (request_repayment-cases s input id run) [
  | inl (e, _) ↦ subst IsSolvent e h
  | inr g ↦ subst IsSolvent g.inserted (requested-IsSolvent g h)
]
Step-IsSolvent s t (advance input ids now result run) h =
    elim (advance_repayment-cases s input ids now run) [
      | inl (e, _) ↦ subst IsSolvent e h
      | inr g ↦ subst IsSolvent g.done (
          restore-IsSolvent input g.evaluation g.current ids _
            (All-find _ (λ (r : Repayment). str_eq r.id input.repayment_id) s.repayments g.found
              h.repayments)
            (updated_repayments s g.current.id g.evaluation input.provider_reference now h))
    ]

empty-IsSolvent : IsSolvent empty_store
empty-IsSolvent = record { within = λ id f h. cc; reservations = tt; repayments = tt }

-- In every store that the service reaches from an empty one, by any transactions in any order, what a
-- facility has drawn and reserved is within its limit (INV-19).
pub Reach-within :
    {s : Store} (id : String) {f : Facility}
    → Reach empty_store s
    → facility_at s id ≡ some f
    → pos 0 ≤ℤ f.limit_minor -ℤ f.drawn_minor -ℤ f.reserved_minor
Reach-within id {f} reached found =
    (Reach_inv IsSolvent Step-IsSolvent reached empty-IsSolvent).within id f found
