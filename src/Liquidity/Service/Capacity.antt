-- ===== src/Liquidity/Service/Capacity.antt =====
-- INV-46: when a repayment gives capacity back, and what may be requested
-- (packages/app/src/liquidity.service.ts, packages/domain/src/liquidity/repayment.ts).
use Prim.Native.String.{String}
use text.Mathlib.Text.{◌==◌ as str_eq}
use text.Mathlib.TextEquality.{eq_iff}
use mathlib.Core.Option.{some-injective}
use inrsettling.Base.{
  ℕ, Option, List, ◌≡◌, ◌⊎◌, refl, sym, ap, ◌∙◌, subst, true, false, Bool-cases, inl, inr, some,
  if◌then◌else◌, arith,
}
use inrsettling.Base.Lists.{find}
use inrsettling.Base.Int.{ℤ, pos, ◌+ℤ◌, ◌-ℤ◌, ◌≤ℤ◌, ◌<ℤ◌, ltb_ℤ}
use inrsettling.Base.Result.{ok, err}
use inrsettling.Liquidity.Facility.{PairedMovement}
use inrsettling.Liquidity.Repayment.{
  RepaymentStatus, RepaymentTrigger, RepaymentEvaluation, evaluate_repayment_transition,
  is_repayment_in_flight, y08,
}
use inrsettling.Liquidity.Service.Defs.{Facility, Repayment, Store, MovementIds, post_movement}
use inrsettling.Liquidity.Service.Repay.{
  RepaymentInput, RepaymentResult, RepaymentError, of_facility_lock, has_live_twin, is_twin,
  is_duplicate, in_flight, eligible_outstanding, add_repayment, new_repayment, request_repayment,
}
use inrsettling.Liquidity.Service.Advance.{
  AdvanceInput, advanced_row, write_repayment, update_repayment, restore, advance_repayment,
}
use inrsettling.Liquidity.Service.Ledger.{facility_at}
use inrsettling.Liquidity.Service.Reserving.{lock_facility-some}
use inrsettling.Liquidity.Service.Repaying.{
  request_repayment-cases, is_done, Unlisted, advance_repayment-cases,
}

abbrev y08_evaluation : RepaymentEvaluation
y08_evaluation = record {
  id = y08;
  to = RepaymentStatus.requested;
  restores_capacity = false;
  requires_new_fingerprint = true;
}

-- The two ways to a confirmation: Y03 and Y06.
abbrev pub Confirms : RepaymentStatus → RepaymentTrigger → Type 0
Confirms status trigger =
    ((status ≡ RepaymentStatus.submitted) × (trigger ≡ RepaymentTrigger.confirmed))
    ⊎ ((status ≡ RepaymentStatus.unknown) × (trigger ≡ RepaymentTrigger.pull_resolved_confirmed))

restores_when :
    (status : RepaymentStatus) (trigger : RepaymentTrigger) {e : RepaymentEvaluation}
    → evaluate_repayment_transition (some status) trigger ≡ some e
    → e.restores_capacity ≡ true
    → Confirms status trigger
unfolding evaluate_repayment_transition
restores_when RepaymentStatus.requested RepaymentTrigger.request e h = ground arith
restores_when _ _ e h = ground arith

-- Y03 and Y06 are rows of the table, and both give capacity back.
restoring_row :
    (status : RepaymentStatus) (trigger : RepaymentTrigger)
    → Confirms status trigger
    → (e : RepaymentEvaluation) × (evaluate_repayment_transition (some status) trigger ≡ some e)
      × (e.restores_capacity ≡ true)
unfolding evaluate_repayment_transition
restoring_row status trigger (inl (s, t)) = rw (s, t) (_, refl, refl)
restoring_row status trigger (inr (s, t)) = rw (s, t) (_, refl, refl)

module _ (input : AdvanceInput) (e : RepaymentEvaluation) (r : Repayment) (ids : MovementIds)
    (now : ℕ) (store : Store) where
  after : Store
  after = restore input e r ids (write_repayment r.id e input.provider_reference now store)

  after-kept :
      e.restores_capacity ≡ false
      → (after.facilities ≡ store.facilities) × (after.ledger ≡ store.ledger)
  unfolding after restore write_repayment
  after-kept n = (rw n refl, rw n refl)

  after-restored :
      e.restores_capacity ≡ true
      → let moved =
          post_movement store ids r.facility_id PairedMovement.repayment_confirmed r.amount in
        (after.facilities ≡ moved.facilities) × (after.ledger ≡ moved.ledger)
  unfolding after restore write_repayment post_movement
  after-restored y = (rw y refl, rw y refl)

-- The repayment that is advanced, when it is confirmed by it.
abbrev pub IsConfirmed : Store → AdvanceInput → Repayment → Type 0
IsConfirmed store input r =
    (find (λ x. str_eq x.id input.repayment_id) store.repayments ≡ some r)
    × Confirms r.status input.trigger

-- The facilities and the ledger are as the one movement of the repayment leaves them.
abbrev pub IsPosted : Store → MovementIds → Repayment → Store → Type 0
IsPosted store ids r store' =
    let moved = post_movement store ids r.facility_id PairedMovement.repayment_confirmed r.amount in
    (store'.facilities ≡ moved.facilities) × (store'.ledger ≡ moved.ledger)

refused_keeps :
    (store : Store) (input : AdvanceInput)
    → Unlisted store input
    → ¬ ((r : Repayment) × IsConfirmed store input r)
refused_keeps store input unlisted (r, (found, confirms)) =
    let (e, listed, _) = restoring_row r.status input.trigger confirms in
    absurd (cc (unlisted r found, listed))

unrestored_keeps :
    (store : Store) (input : AdvanceInput) (current : Repayment) (e : RepaymentEvaluation)
    → find (λ x. str_eq x.id input.repayment_id) store.repayments ≡ some current
    → evaluate_repayment_transition (some current.status) input.trigger ≡ some e
    → e.restores_capacity ≡ false
    → ¬ ((r : Repayment) × IsConfirmed store input r)
unrestored_keeps store input current e found listed n (r, (found', confirms)) =
    let (e', listed', y) = restoring_row r.status input.trigger confirms in
    let same_row = some-injective current r (sym found ∙ found') in
    let same_status = ap (λ (x : Repayment). x.status) same_row in
    let same_e = some-injective e e' (
      sym listed
      ∙ (ap (λ s. evaluate_repayment_transition (some s) input.trigger) same_status ∙ listed')) in
    absurd (cc (n, y, ap (λ (x : RepaymentEvaluation). x.restores_capacity) same_e))

-- An advance that is carried out or refused, and not undone by an error, is one of two. It confirms
-- the repayment, by the trusted confirmation of a submitted one (Y03) or by the pull that finds an
-- unknown one confirmed (Y06), and then the facilities and the ledger are those after one movement of
-- the repayment's own amount from drawn to available. Or it does not confirm it, and then they are as
-- they were.
pub advance_repayment-capacity :
    (store : Store) (input : AdvanceInput) (ids : MovementIds) (now : ℕ) {store' : Store}
    {result : RepaymentResult}
    → advance_repayment store input ids now ≡ ok (store', result)
    → ((r : Repayment) × IsConfirmed store input r × IsPosted store ids r store')
      ⊎ ((¬ ((r : Repayment) × IsConfirmed store input r))
          × (store'.facilities ≡ store.facilities)
          × (store'.ledger ≡ store.ledger))
unfolding after
advance_repayment-capacity store input ids now {store'} {result} run =
    elim (advance_repayment-cases store input ids now run) [
      | inl (e, unlisted) ↦ inr (
        refused_keeps store input unlisted,
        ap (λ s. s.facilities) (sym e),
        ap (λ s. s.ledger) (sym e),
      )
      | inr g ↦ elim (Bool-cases g.evaluation.restores_capacity) [
        | inl y ↦
            let (f, l) = after-restored input g.evaluation g.current ids now store y in
            inl (
              g.current,
              (g.found, restores_when g.current.status input.trigger g.evaluated y),
              (ap (λ s. s.facilities) (sym g.done) ∙ f, ap (λ s. s.ledger) (sym g.done) ∙ l),
            )
        | inr n ↦
            let (f, l) = after-kept input g.evaluation g.current ids now store n in
            inr (
              unrestored_keeps store input g.current g.evaluation g.found g.evaluated n,
              ap (λ s. s.facilities) (sym g.done) ∙ f,
              ap (λ s. s.ledger) (sym g.done) ∙ l,
            )
      ]
    ]

eligible_of :
    (store : Store) (id : String) (f : Facility)
    → facility_at store id ≡ some f
    → eligible_outstanding store id ≡ (
        let eligible = f.drawn_minor -ℤ in_flight id store.repayments in
        if ltb_ℤ (pos 0) eligible then eligible else pos 0)
unfolding eligible_outstanding
eligible_of store id f found = rw (found, eligible_outstanding) refl

in_flight-insert :
    (store : Store) (input : RepaymentInput) (id : String)
    → in_flight input.facility_id
        (add_repayment store input.actor (new_repayment id input)).repayments
      ≡ input.amount.minor_units +ℤ in_flight input.facility_id store.repayments
unfolding in_flight add_repayment new_repayment is_repayment_in_flight
in_flight-insert store input id = rw ((eq_iff input.facility_id input.facility_id).1 refl) refl

room :
    (drawn flight amount : ℤ)
    → pos 0 <ℤ amount
    → amount
      ≤ℤ (let eligible = drawn -ℤ flight in if ltb_ℤ (pos 0) eligible then eligible else pos 0)
    → amount +ℤ flight ≤ℤ drawn
unfolding ◌+ℤ◌ ◌-ℤ◌
room d f a p h = ground arith

-- A repayment that is accepted is of a positive amount in the currency of a facility that is there,
-- and with it all that is in flight for the facility still comes to no more than what it has drawn.
-- The request itself moves no figure of any facility and no ledger entry.
pub request_repayment-covered :
    (store : Store) (input : RepaymentInput) (id : String) {store' : Store}
    {result : RepaymentResult}
    → request_repayment store input id ≡ ok (store', result)
    → is_done result ≡ true
    → (f : Facility) × (facility_at store input.facility_id ≡ some f)
      × (input.amount.currency ≡ f.currency)
      × (pos 0 <ℤ input.amount.minor_units)
      × (in_flight input.facility_id store'.repayments ≤ℤ f.drawn_minor)
      × (store'.facilities ≡ store.facilities)
      × (store'.ledger ≡ store.ledger)
unfolding add_repayment
request_repayment-covered store input id {store'} {result} run accepted =
    elim (request_repayment-cases store input id run) [
      | inl (_, refused) ↦ cc
      | inr g ↦
          let found = (lock_facility-some store input.facility_id g.row g.locked).0 in
          let f = g.row.raw in
          let covered =
            subst (λ x. input.amount.minor_units ≤ℤ x) (eligible_of store input.facility_id f found)
              g.covered in
          let fits =
            room f.drawn_minor (in_flight input.facility_id store.repayments)
              input.amount.minor_units g.positive covered in
          (
            f,
            found,
            g.currency,
            g.positive,
            subst (λ x. x ≤ℤ f.drawn_minor)
                (sym (in_flight-insert store input id)
                  ∙ ap (λ (s : Store). in_flight input.facility_id s.repayments) g.inserted)
                fits,
            ap (λ s. s.facilities) (sym g.inserted),
            ap (λ s. s.ledger) (sym g.inserted),
          )
    ]

evaluate_y08 :
    (status : RepaymentStatus) (trigger : RepaymentTrigger)
    → status ≡ RepaymentStatus.failed
    → trigger ≡ RepaymentTrigger.re_request
    → evaluate_repayment_transition (some status) trigger ≡ some y08_evaluation
unfolding evaluate_repayment_transition
evaluate_y08 status trigger e h = rw (e, h) refl

-- The repayment as Y08 leaves it is live, and it keeps the key of the index.
is_duplicate-y08 :
    (reference : Option String) (now : ℕ) (r : Repayment) (rows : List Repayment)
    → is_duplicate (advanced_row y08_evaluation reference now r) rows ≡ has_live_twin r rows
unfolding is_duplicate advanced_row has_live_twin is_twin
is_duplicate-y08 reference now r rows = refl

-- Y08 asks for a failed repayment again, and it alone decides on the unique index. Where another live
-- repayment has its settlement and its return, the database refuses and the call throws. Where none
-- has, the call looks at nothing else: whatever the facility has drawn, and whatever else is in flight
-- for it, the repayment is requested again, and every facility is left as it is.
pub re_request_unchecked :
    (store : Store) (input : AdvanceInput) (ids : MovementIds) (now : ℕ) {r : Repayment}
    → find (λ x. str_eq x.id input.repayment_id) store.repayments ≡ some r
    → r.status ≡ RepaymentStatus.failed
    → input.trigger ≡ RepaymentTrigger.re_request
    → ((has_live_twin r store.repayments ≡ true)
        × (advance_repayment store input ids now ≡ err RepaymentError.duplicate_live))
      ⊎ ((has_live_twin r store.repayments ≡ false)
          × ((store' : Store) × (advance_repayment store input ids now
                ≡ ok (store', RepaymentResult.done r.id RepaymentStatus.requested false))
              × (store'.facilities ≡ store.facilities)))
unfolding after advance_repayment restore update_repayment of_facility_lock
re_request_unchecked store input ids now {r} found failed again =
    let row = evaluate_y08 r.status input.trigger failed again in
    let index = is_duplicate-y08 input.provider_reference now r store.repayments in
    elim (Bool-cases (has_live_twin r store.repayments)) [
      | inl y ↦
          inl (y, rw (found, advance_repayment) (rw row (rw (index ∙ y, update_repayment) refl)))
      | inr n ↦ inr (
        n,
        (
          after input y08_evaluation r ids now store,
          rw (found, advance_repayment) (rw row (rw (index ∙ n, update_repayment) refl)),
          (after-kept input y08_evaluation r ids now store refl).0,
        ),
      )
    ]
