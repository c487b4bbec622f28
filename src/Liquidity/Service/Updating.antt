-- ===== src/Liquidity/Service/Updating.antt =====
-- The writes to rows of packages/app/src/liquidity.service.ts keep each facility at its ledger.
use Prim.Native.String.{String}
use text.Mathlib.Text.{◌==◌ as str_eq}
use inrsettling.Base.{
  ℕ, ◌≡◌, refl, Bool, true, false, Bool-cases, inl, inr, Option, some, List, [], ◌∷◌, map,
  if◌then◌else◌, ◌&&◌,
}
use inrsettling.Base.Lists.{find, All}
use inrsettling.Money.Amount.{Money}
use inrsettling.Liquidity.Facility.{PairedMovement}
use inrsettling.Liquidity.Reservation.{ReservationStatus, ReservationReleaseReason}
use inrsettling.Liquidity.Repayment.{RepaymentEvaluation}
use inrsettling.Settlement.Service.Defs.{Principal}
use inrsettling.Liquidity.Service.Defs.{
  Reservation, Repayment, Store, MovementIds, post_movement, FacilityEvent, AuditEntry,
}
use inrsettling.Liquidity.Service.Reserve.{is_active}
use inrsettling.Liquidity.Service.Release.{
  released_row, consumed_row, write_release, write_consumption, update_active,
}
use inrsettling.Liquidity.Service.Repay.{add_repayment}
use inrsettling.Liquidity.Service.Advance.{AdvanceInput, write_repayment, restore, advanced_row}
use inrsettling.Liquidity.Service.Ledger.{IsProjected}
use inrsettling.Liquidity.Service.Posting.{InCurrencyOf}
use mathlib.Core.Option.{some-injective}
use inrsettling.Liquidity.Service.Consistency.{IsConsistent, post_movement-IsConsistent}

module _ {A : Type 0} (P : A → Type 0) where
  pub All-mapped :
      (g : A → A) (xs : List A) → ((a : A) → P a → P (g a)) → All P xs → All P (map g xs)
  All-mapped g [] keeps h = tt
  All-mapped g (x ∷ xs) keeps h = (keeps x h.0, All-mapped g xs keeps h.1)

  pub All-find : (p : A → Bool) (xs : List A) {a : A} → find p xs ≡ some a → All P xs → P a
  All-find p [] e h = cc
  All-find p (x ∷ xs) {a} e h = elim (Bool-cases (p x)) [
    | inl y ↦
        let k : ◌≡◌ {A = Option A} (some x) (some a) = rw y at e in rw (← some-injective _ _ k) h.0
    | inr n ↦ All-find p xs (rw n at e) h.1
  ]

  -- A change of the rows that pass a test.
  pub keeps_where : (b : Bool) (r : A) (new : A) → P r → P new → P (if b then new else r)
  keeps_where true r new h k = k
  keeps_where false r new h k = h

-- An update of a reservation that keeps its facility and its amount.
update_active-IsConsistent :
    (store : Store) (id : String) (change : Reservation → Reservation)
    → ((r : Reservation) → (change r).facility_id ≡ r.facility_id)
    → ((r : Reservation) → (change r).amount ≡ r.amount)
    → IsConsistent store
    → IsConsistent (update_active id change store)
unfolding update_active IsProjected InCurrencyOf
update_active-IsConsistent store id change same_facility same_amount h = record {
  projected = h.projected;
  reservations_currency =
      All-mapped (λ (r : Reservation). InCurrencyOf store r.facility_id r.amount) _
        store.reservations
        (λ r k.
          keeps_where (λ (x : Reservation). InCurrencyOf store x.facility_id x.amount)
            (str_eq r.id id && is_active r.status) r (change r) k
            (rw (same_facility r, same_amount r) k))
        h.reservations_currency;
  repayments_currency = h.repayments_currency;
}

pub write_release-IsConsistent :
    (store : Store) (r : Reservation) (to : ReservationStatus) (movement : PairedMovement)
    (reason : ReservationReleaseReason) (expired : Bool) (actor : Principal) (ids : MovementIds)
    (now : ℕ)
    → IsConsistent store
    → InCurrencyOf store r.facility_id r.amount
    → IsConsistent (write_release store r to movement reason expired actor ids now)
unfolding write_release released_row update_active post_movement IsProjected InCurrencyOf
write_release-IsConsistent store r to movement reason expired actor ids now h c =
    let staged = update_active r.id (released_row to reason now) store in
    let k =
      post_movement-IsConsistent staged ids r.facility_id movement r.amount
        (update_active-IsConsistent store r.id (released_row to reason now) (λ x. refl) (λ x. refl)
          h)
        c in
    record {
      projected = k.projected;
      reservations_currency = k.reservations_currency;
      repayments_currency = k.repayments_currency;
    }

pub write_consumption-IsConsistent :
    (store : Store) (r : Reservation) (ids : MovementIds) (now : ℕ)
    → IsConsistent store
    → InCurrencyOf store r.facility_id r.amount
    → IsConsistent (write_consumption store r ids now)
unfolding write_consumption consumed_row update_active InCurrencyOf
write_consumption-IsConsistent store r ids now h c =
    post_movement-IsConsistent (update_active r.id (consumed_row now) store) ids r.facility_id
      PairedMovement.reservation_consumed r.amount
      (update_active-IsConsistent store r.id (consumed_row now) (λ x. refl) (λ x. refl) h) c

pub add_repayment-IsConsistent :
    (store : Store) (actor : Principal) (r : Repayment)
    → IsConsistent store
    → InCurrencyOf store r.facility_id r.amount
    → IsConsistent (add_repayment store actor r)
unfolding add_repayment IsProjected InCurrencyOf
add_repayment-IsConsistent store actor r h c = record {
  projected = h.projected;
  reservations_currency = h.reservations_currency;
  repayments_currency = (c, h.repayments_currency);
}

module _ (e : RepaymentEvaluation) (reference : Option String) (now : ℕ) (store : Store) where
  advanced_row-keeps :
      (r : Repayment)
      → InCurrencyOf store r.facility_id r.amount
      → InCurrencyOf store
          (advanced_row e reference now r).facility_id
          (advanced_row e reference now r).amount
  unfolding advanced_row
  advanced_row-keeps r h = elim (Bool-cases e.requires_new_fingerprint) [
    | inl y ↦ rw y h
    | inr n ↦ rw n h
  ]

  write_repayment-IsConsistent :
      (id : String) → IsConsistent store → IsConsistent (write_repayment id e reference now store)
  unfolding write_repayment IsProjected InCurrencyOf
  write_repayment-IsConsistent id h = record {
    projected = h.projected;
    reservations_currency = h.reservations_currency;
    repayments_currency =
        All-mapped (λ (r : Repayment). InCurrencyOf store r.facility_id r.amount) _ store.repayments
          (λ r k.
            keeps_where (λ (x : Repayment). InCurrencyOf store x.facility_id x.amount)
              (str_eq r.id id) r (advanced_row e reference now r) k (advanced_row-keeps r k))
          h.repayments_currency;
  }

-- A store that differs in its logs only.
pub logged-IsConsistent :
    (store : Store) (events : List FacilityEvent) (audit_log : List AuditEntry)
    → IsConsistent store
    → IsConsistent (record store { events = events; audit_log = audit_log })
unfolding IsProjected InCurrencyOf
logged-IsConsistent store events audit_log h = record {
  projected = h.projected;
  reservations_currency = h.reservations_currency;
  repayments_currency = h.repayments_currency;
}

InCurrencyOf-update :
    (e : RepaymentEvaluation) (reference : Option String) (now : ℕ) (store : Store) (id : String)
    (facility_id : String) (amount : Money)
    → InCurrencyOf store facility_id amount
    → InCurrencyOf (write_repayment id e reference now store) facility_id amount
unfolding write_repayment InCurrencyOf
InCurrencyOf-update e reference now store id facility_id amount c = c

pub restore-IsConsistent :
    (input : AdvanceInput) (e : RepaymentEvaluation) (r : Repayment) (ids : MovementIds) (now : ℕ)
    (store : Store)
    → IsConsistent store
    → InCurrencyOf store r.facility_id r.amount
    → IsConsistent
        (restore input e r ids (write_repayment r.id e input.provider_reference now store))
unfolding restore
restore-IsConsistent input e r ids now store h c =
    let reference = input.provider_reference in
    let staged = write_repayment r.id e reference now store in
    let s = write_repayment-IsConsistent e reference now store r.id h in
    let c' = InCurrencyOf-update e reference now store r.id r.facility_id r.amount c in
    let moved =
      post_movement-IsConsistent staged ids r.facility_id PairedMovement.repayment_confirmed
        r.amount s c' in
    logged-IsConsistent _ _ _ (
      keeps_where IsConsistent e.restores_capacity staged
        (post_movement staged ids r.facility_id PairedMovement.repayment_confirmed r.amount) s
        moved)
