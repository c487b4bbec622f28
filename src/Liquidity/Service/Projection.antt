-- ===== src/Liquidity/Service/Projection.antt =====
-- INV-23 over any history of packages/app/src/liquidity.service.ts.
use Prim.Native.String.{String}
use text.Mathlib.Text.{◌==◌ as str_eq}
use text.Mathlib.TextEquality.{eq_iff}
use inrsettling.Base.{
  ◌≡◌, ◌≢◌, ◌⊎◌, refl, sym, ap, ◌∙◌, subst, Bool-cases, inl, inr, some, List, [], ◌∷◌, arith,
}
use inrsettling.Base.Lists.{find, All-zip}
use inrsettling.Base.Result.{ok}
use inrsettling.Money.Amount.{Currency, Money, money}
use inrsettling.Liquidity.Facility.{project_onto, project_position}
use inrsettling.Settlement.Service.Defs.{Principal}
use inrsettling.Liquidity.Service.Defs.{Facility, Reservation, Repayment, Store, to_position}
use inrsettling.Liquidity.Service.Repay.{RepaymentInput, new_repayment}
use inrsettling.Liquidity.Service.Facilities.{
  entries_of, new_facility, insert_facility, create_facility,
}
use inrsettling.Liquidity.Service.Ledger.{IsProjected}
use inrsettling.Liquidity.Service.Posting.{InCurrencyOf}
use inrsettling.Liquidity.Service.Reserving.{lock_facility-some}
use inrsettling.Liquidity.Service.Consistency.{IsConsistent}
use inrsettling.Liquidity.Service.Updating.{
  All-find, write_release-IsConsistent, write_consumption-IsConsistent, add_repayment-IsConsistent,
  restore-IsConsistent,
}
use inrsettling.Liquidity.Service.Granting.{
  Outcome, reserve_outcome, answered_with, granted_insert, granted_currency,
}
use inrsettling.Liquidity.Service.Operations.{
  release_reservation-cases, consume_reservation-cases, locked-All,
}
use inrsettling.Liquidity.Service.Repaying.{
  IsRequested, request_repayment-cases, advance_repayment-cases,
}
use inrsettling.Liquidity.Service.Steps.{
  IsUnused, Step, create, reserve, release, consume, request, advance,
}
use inrsettling.Liquidity.Service.Reserve.{new_reservation, insert_reservation}
use mathlib.Core.Option.{some-injective}

-- A lookup in a table with a new row at its head.
pub find_new :
    (f : Facility) (rows : List Facility) (id : String) {g : Facility}
    → find (λ (x : Facility). str_eq x.id id) (f ∷ rows) ≡ some g
    → ((f.id ≡ id) × (f ≡ g)) ⊎ (find (λ (x : Facility). str_eq x.id id) rows ≡ some g)
find_new f rows id h = elim (Bool-cases (str_eq f.id id)) [
  | inl y ↦ inl ((eq_iff f.id id).0 y, some-injective _ _ (rw y at h))
  | inr n ↦ inr (rw n at h)
]

new_facility-id :
    (currency : Currency) (limit : Money) (id : String) → (new_facility currency limit id).id ≡ id
unfolding new_facility
new_facility-id currency limit id = refl

new_facility-projected :
    (currency : Currency) (limit : Money) (id : String)
    → let f = new_facility currency limit id in
      project_position f.currency (money f.currency f.limit_minor) [] ≡ ok (to_position f)
unfolding new_facility project_position project_onto to_position
new_facility-projected currency limit id = refl

module _ (s : Store) (currency : Currency) (limit : Money) (actor : Principal) (id : String)
    (u : IsUnused s id) where
  created : Store
  created = insert_facility s currency limit actor id

  -- An id that is not the new one names the currency that it named before.
  currency_elsewhere :
      (other : String) (amount : Money)
      → other ≢ id
      → InCurrencyOf s other amount
      → InCurrencyOf created other amount
  unfolding created insert_facility InCurrencyOf
  currency_elsewhere other amount ne c g found =
      elim (find_new (new_facility currency limit id) s.facilities other found) [
        | inl (e, _) ↦ absurd (ne (sym e ∙ new_facility-id currency limit id))
        | inr before ↦ c g before
      ]

  -- No entry names the new facility, and its row begins at nothing.
  created-IsProjected : IsProjected s → IsProjected created
  unfolding created insert_facility IsProjected
  created-IsProjected h other f found =
      elim (find_new (new_facility currency limit id) s.facilities other found) [
        | inr before ↦ h other f before
        | inl (e, row) ↦
            subst
              (λ (x : Facility).
                project_position x.currency (money x.currency x.limit_minor)
                  (entries_of other s.ledger)
                ≡ ok (to_position x))
              row
              (subst
                (λ (x : String).
                  project_position (new_facility currency limit id).currency
                    (money (new_facility currency limit id).currency
                      (new_facility currency limit id).limit_minor)
                    (entries_of x s.ledger)
                  ≡ ok (to_position (new_facility currency limit id)))
                (sym (new_facility-id currency limit id) ∙ e)
                (rw u.no_entries (new_facility-projected currency limit id)))
      ]

  created-IsConsistent : IsConsistent s → IsConsistent created
  unfolding created insert_facility
  created-IsConsistent h = record {
    projected = created-IsProjected h.projected;
    reservations_currency =
        All-zip s.reservations
          (λ (r : Reservation) ne c. currency_elsewhere r.facility_id r.amount ne c)
          u.no_reservations h.reservations_currency;
    repayments_currency =
        All-zip s.repayments
          (λ (r : Repayment) ne c. currency_elsewhere r.facility_id r.amount ne c) u.no_repayments
          h.repayments_currency;
  }

pub create_facility-some :
    (s t : Store) (currency : Currency) (limit : Money) (actor : Principal) (id : String)
    {answer : String}
    → create_facility s currency limit actor id ≡ some (t, answer)
    → insert_facility s currency limit actor id ≡ t
unfolding create_facility
create_facility-some s t currency limit actor id h = ground arith

requested_currency :
    {s t : Store} {input : RepaymentInput} {id : String}
    → IsRequested s input id t
    → InCurrencyOf s input.facility_id input.amount
unfolding InCurrencyOf
requested_currency {s} {t} {input} g f found =
    let here = (lock_facility-some s input.facility_id g.row g.locked).0 in
    g.currency ∙ ap (λ (x : Facility). x.currency) (some-injective _ _ (sym here ∙ found))

requested-IsConsistent :
    {s t : Store} {input : RepaymentInput} {id : String}
    → IsConsistent s
    → IsRequested s input id t
    → IsConsistent t
unfolding new_repayment
requested-IsConsistent {s} {t} {input} {id} h g =
    subst IsConsistent g.inserted
      (add_repayment-IsConsistent s input.actor (new_repayment id input) h (requested_currency g))

-- Each step keeps the rows of the facilities at the projection of their entries.
pub Step-IsConsistent : (s t : Store) → Step s t → IsConsistent s → IsConsistent t
unfolding created Outcome
Step-IsConsistent s t (create currency limit actor id answer positive unused run) h =
    subst IsConsistent (create_facility-some s t currency limit actor id run)
      (created-IsConsistent s currency limit actor id unused h)
Step-IsConsistent s t (reserve input id ids now result positive run) h =
    elim (reserve_outcome s input id ids now t result run) [
      | inl (e, _) ↦ subst IsConsistent e h
      | inr g ↦
          let r = new_reservation input g.row id now in
          let (_, _, e, _) = answered_with (insert_reservation s input.actor ids r) r g.answered in
          subst IsConsistent e (granted_insert s input id ids now g.row h (granted_currency g))
    ]
Step-IsConsistent s t (release settlement reason expired actor ids now result run) h =
    elim (release_reservation-cases s settlement reason expired actor ids now run) [
      | inl e ↦ subst IsConsistent e h
      | inr g ↦ subst IsConsistent g.written (
          write_release-IsConsistent s g.reservation g.to g.movement reason expired actor ids now h
            (locked-All _ s settlement g.reservation h.reservations_currency g.found))
    ]
Step-IsConsistent s t (consume settlement ids now result run) h =
    elim (consume_reservation-cases s settlement ids now run) [
      | inl e ↦ subst IsConsistent e h
      | inr g ↦ subst IsConsistent g.written (
          write_consumption-IsConsistent s g.reservation ids now h
            (locked-All _ s settlement g.reservation h.reservations_currency g.found))
    ]
Step-IsConsistent s t (request input id result run) h =
    elim (request_repayment-cases s input id run) [
      | inl (e, _) ↦ subst IsConsistent e h
      | inr g ↦ requested-IsConsistent h g
    ]
Step-IsConsistent s t (advance input ids now result run) h =
    elim (advance_repayment-cases s input ids now run) [
      | inl (e, _) ↦ subst IsConsistent e h
      | inr g ↦ subst IsConsistent g.done (
          restore-IsConsistent input g.evaluation g.current ids now s h (
            All-find _ (λ (r : Repayment). str_eq r.id input.repayment_id) s.repayments g.found
              h.repayments_currency))
    ]
