-- ===== src/Liquidity/Service/Granting.antt =====
-- A run of `reserveLiquidity` of packages/app/src/liquidity.service.ts, from its answer back.
use Prim.Native.String.{String}
use text.Mathlib.Text.{◌==◌ as str_eq}
use text.Mathlib.TextEquality.{eq_iff}
use inrsettling.Base.{
  ℕ, ◌≡◌, ◌≢◌, ◌⊎◌, refl, sym, ap, ◌∙◌, Bool, true, false, Bool-cases, inl, inr, Option, none, some,
  ◌==◌,
}
use inrsettling.Base.Result.{Result, ok, err, ◌>>=◌}
use inrsettling.Liquidity.Facility.{LiquidityError, CanReserve, can_reserve}
use inrsettling.Liquidity.Service.Defs.{
  Facility, Reservation, Store, FacilityRow, MovementIds, lock_facility,
}
use inrsettling.Liquidity.Service.Reserve.{
  ReserveInput, ReserveResult, ServiceError, of_liquidity, has_active, new_reservation,
  insert_reservation, answer_reserved, reserve_from, reserve_liquidity,
}
use inrsettling.Liquidity.Service.Ledger.{facility_at}
use inrsettling.Liquidity.Service.Posting.{InCurrencyOf, find-passes}
use inrsettling.Liquidity.Service.Consistency.{IsConsistent, insert_reservation-IsConsistent}
use inrsettling.Liquidity.Service.Reserving.{lock_facility-some, can_reserve-permitted}
use mathlib.Core.Option.{some-injective}

-- What a run that grants a reservation did.
pub record IsGranted (store : Store) (input : ReserveInput) (id : String) (ids : MovementIds)
    (now : ℕ) (store' : Store) (result : ReserveResult) : Type 0 where
  pub row : FacilityRow
  pub locked : lock_facility store input.facility_id ≡ ok (some row)
  pub permitted : can_reserve row.position row.raw.status input.amount ≡ ok CanReserve.permitted
  pub unreserved : has_active store input.settlement_id ≡ false
  pub answered :
      let r = new_reservation input row id now in
      answer_reserved (insert_reservation store input.actor ids r) r ≡ ok (store', result)

first_of :
    {s t : Store} {a b : ReserveResult}
    → ◌≡◌ {A = Result ServiceError (Store × ReserveResult)} (ok (s, a)) (ok (t, b))
    → s ≡ t
first_of h = cc

second_of :
    {s t : Store} {a b : ReserveResult}
    → ◌≡◌ {A = Result ServiceError (Store × ReserveResult)} (ok (s, a)) (ok (t, b))
    → b ≡ a
second_of h = cc

abbrev is_granted : ReserveResult → Bool
is_granted (ReserveResult.reserved _ _ _) = true
is_granted _ = false

-- A refusal is no grant.
refused :
    {s t : Store} {b : ReserveResult} (a : ReserveResult)
    → is_granted a ≡ false
    → ◌≡◌ {A = Result ServiceError (Store × ReserveResult)} (ok (s, a)) (ok (t, b))
    → is_granted b ≡ false
refused a k h = ap is_granted (second_of h) ∙ k

err_ok :
    {e : ServiceError} {a : Store × ReserveResult}
    → ◌≢◌ {A = Result ServiceError (Store × ReserveResult)} (err e) (ok a)
err_ok h = cc

module _ (store : Store) (input : ReserveInput) (id : String) (ids : MovementIds) (now : ℕ)
    (store' : Store) (result : ReserveResult) where
  unfoldable pub Outcome : Type 0
  Outcome =
      ((store ≡ store') × (is_granted result ≡ false))
      ⊎ IsGranted store input id ids now store' result

  of_verdict :
      (row : FacilityRow) (verdict : Result LiquidityError CanReserve)
      → lock_facility store input.facility_id ≡ ok (some row)
      → can_reserve row.position row.raw.status input.amount ≡ verdict
      → let k : CanReserve → Result ServiceError (Store × ReserveResult) = λ v. elim v [
        | CanReserve.permitted ↦ reserve_from store input row id ids now
        | CanReserve.facility_not_active ↦ ok (store, ReserveResult.facility_not_active)
        | CanReserve.insufficient_availability ↦ ok (store, ReserveResult.insufficient_availability)
        | CanReserve.currency_mismatch ↦ ok (store, ReserveResult.currency_mismatch)
      ] in
        (of_liquidity verdict >>= k) ≡ ok (store', result) → Outcome
  unfolding Outcome of_liquidity reserve_from
  of_verdict row (ok CanReserve.permitted) l c run =
      elim (Bool-cases (has_active store input.settlement_id)) [
        | inl y ↦ inl (
          first_of (rw (y, reserve_from) at run),
          refused ReserveResult.already_reserved refl (rw (y, reserve_from) at run),
        )
        | inr n ↦ inr (record {
          row = row;
          locked = l;
          permitted = c;
          unreserved = n;
          answered = rw (n, reserve_from) at run;
        })
      ]
  of_verdict row (ok CanReserve.facility_not_active) l c run =
      inl (first_of run, refused ReserveResult.facility_not_active refl run)
  of_verdict row (ok CanReserve.insufficient_availability) l c run =
      inl (first_of run, refused ReserveResult.insufficient_availability refl run)
  of_verdict row (ok CanReserve.currency_mismatch) l c run =
      inl (first_of run, refused ReserveResult.currency_mismatch refl run)
  of_verdict row (err e) l c run = absurd (err_ok run)

  of_lock :
      (lock : Result LiquidityError (Option FacilityRow))
      → lock_facility store input.facility_id ≡ lock
      → let k : Option FacilityRow → Result ServiceError (Store × ReserveResult) = λ found.
        elim found [
          | none ↦ ok (store, ReserveResult.facility_not_found)
          | some row ↦
              of_liquidity (can_reserve row.position row.raw.status input.amount) >>= λ verdict.
              elim verdict [
                | CanReserve.permitted ↦ reserve_from store input row id ids now
                | CanReserve.facility_not_active ↦ ok (store, ReserveResult.facility_not_active)
                | CanReserve.insufficient_availability ↦
                    ok (store, ReserveResult.insufficient_availability)
                | CanReserve.currency_mismatch ↦ ok (store, ReserveResult.currency_mismatch)
              ]
        ] in
        (of_liquidity lock >>= k) ≡ ok (store', result) → Outcome
  unfolding Outcome of_liquidity
  of_lock (ok none) l run = inl (first_of run, refused ReserveResult.facility_not_found refl run)
  of_lock (ok (some row)) l run =
      of_verdict row (can_reserve row.position row.raw.status input.amount) l refl run
  of_lock (err e) l run = absurd (err_ok run)

  pub reserve_outcome : reserve_liquidity store input id ids now ≡ ok (store', result) → Outcome
  unfolding reserve_liquidity Outcome
  reserve_outcome run = elim (Bool-cases (input.ttl_seconds == 0)) [
    | inl y ↦ absurd (err_ok (rw (y, reserve_liquidity) at run))
    | inr n ↦
        of_lock (lock_facility store input.facility_id) refl (rw (n, reserve_liquidity) at run)
  ]

pub answered_with :
    (store : Store) (r : Reservation) {store' : Store} {result : ReserveResult}
    → answer_reserved store r ≡ ok (store', result)
    → (row : FacilityRow) × (lock_facility store r.facility_id ≡ ok (some row))
      × (store ≡ store')
      × (result ≡ ReserveResult.reserved r.id row.available r.expires_at)
unfolding answer_reserved of_liquidity
answered_with store r {store'} {result} run = go (lock_facility store r.facility_id) refl run
  where
    go :
        (lock : Result LiquidityError (Option FacilityRow))
        → lock_facility store r.facility_id ≡ lock
        → let k : Option FacilityRow → Result ServiceError (Store × ReserveResult) = λ after.
          elim after [
            | none ↦ err ServiceError.facility_vanished
            | some row ↦ ok (store, ReserveResult.reserved r.id row.available r.expires_at)
          ] in
          (of_liquidity lock >>= k) ≡ ok (store', result)
          → (row : FacilityRow) × (lock_facility store r.facility_id ≡ ok (some row))
            × (store ≡ store')
            × (result ≡ ReserveResult.reserved r.id row.available r.expires_at)
    go (ok none) l h = absurd (err_ok h)
    go (ok (some row)) l h = (row, l, first_of h, second_of h)
    go (err e) l h = absurd (err_ok h)

-- The row that is locked has the id that was asked for, and the amount is in its currency.
pub granted_currency :
    {store store' : Store} {input : ReserveInput} {id : String} {ids : MovementIds} {now : ℕ}
    {result : ReserveResult} (g : IsGranted store input id ids now store' result)
    → InCurrencyOf store g.row.raw.id input.amount
unfolding InCurrencyOf
granted_currency {store} {store'} {input} g f e =
    let (found, position, _, _) = lock_facility-some store input.facility_id g.row g.locked in
    let same_id =
      (eq_iff g.row.raw.id input.facility_id).0
        (find-passes (λ (x : Facility). str_eq x.id input.facility_id) store.facilities found) in
    let same_row = some-injective _ _ (sym found ∙ ap (facility_at store) (sym same_id) ∙ e) in
    let (_, currency, _) =
      can_reserve-permitted g.row.raw input.amount (rw position at g.permitted) in
    currency ∙ ap (λ (x : Facility). x.currency) same_row

pub granted_insert :
    (store : Store) (input : ReserveInput) (id : String) (ids : MovementIds) (now : ℕ)
    (row : FacilityRow)
    → IsConsistent store
    → InCurrencyOf store row.raw.id input.amount
    → IsConsistent (insert_reservation store input.actor ids (new_reservation input row id now))
unfolding new_reservation
granted_insert store input id ids now row h c =
    insert_reservation-IsConsistent store input.actor ids (new_reservation input row id now) h c
