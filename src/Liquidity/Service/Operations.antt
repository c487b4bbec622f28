-- ===== src/Liquidity/Service/Operations.antt =====
-- What each operation of packages/app/src/liquidity.service.ts promises, of a whole run.
use Prim.Native.String.{String}
use text.Mathlib.Text.{◌==◌ as str_eq}
use inrsettling.Base.{
  ℕ, ◌≡◌, ◌≢◌, ◌⊎◌, refl, ◌∙◌, Bool, Option-cases, inl, inr, Option, none, some, ◌&&◌,
}
use inrsettling.Base.Lists.{find, All}
use inrsettling.Base.Result.{Result, ok, err, ◌>>=◌}
use inrsettling.Liquidity.Facility.{PairedMovement, LiquidityError}
use inrsettling.Liquidity.Reservation.{
  ReservationStatus, ReservationReleaseReason, ReservationTrigger, ReservationEvaluation,
  ReservationTransitionId, evaluate_reservation_transition,
}
use inrsettling.Settlement.Service.Defs.{Principal}
use inrsettling.Liquidity.Service.Defs.{Reservation, Store, FacilityRow, MovementIds, lock_facility}
use inrsettling.Liquidity.Service.Reserve.{ServiceError, of_liquidity, is_active}
use inrsettling.Liquidity.Service.Release.{
  ReservationResult, lock_reservation, release_trigger, write_release, write_consumption,
  release_reservation, consume_reservation,
}
use inrsettling.Liquidity.Service.Updating.{All-find}

-- The reservation that is locked is a row of the table.
pub locked-All :
    (P : Reservation → Type 0) (store : Store) (settlement_id : String) (r : Reservation)
    → All P store.reservations
    → lock_reservation store settlement_id ≡ some r
    → P r
unfolding lock_reservation
locked-All P store settlement_id r h e =
    let active = λ (x : Reservation). str_eq x.settlement_id settlement_id && is_active x.status in
    let any_ = λ (x : Reservation). str_eq x.settlement_id settlement_id in
    elim (Option-cases (find active store.reservations)) [
      | inl n ↦ All-find P any_ store.reservations (rw (n, lock_reservation) at e) h
      | inr (a, s) ↦ All-find P active store.reservations (s ∙ (rw (s, lock_reservation) at e)) h
    ]

err_ok : {A : Type 0} {e : ServiceError} {a : A} → ◌≢◌ {A = Result ServiceError A} (err e) (ok a)
err_ok h = cc

first_of :
    {A : Type 0} {s t : Store} {a b : A}
    → ◌≡◌ {A = Result ServiceError (Store × A)} (ok (s, a)) (ok (t, b))
    → s ≡ t
first_of h = cc

evaluation-cases :
    (e : ReservationEvaluation)
    → (e ≡ ReservationEvaluation.invalid_transition)
      ⊎ ((e ≡ ReservationEvaluation.consumed_cannot_be_released)
          ⊎ ((id : _) × (to : ReservationStatus) × (m : PairedMovement) × (e
                ≡ ReservationEvaluation.ok id to m)))
evaluation-cases (ReservationEvaluation.ok id to m) = inr (inr (id, to, m, refl))
evaluation-cases ReservationEvaluation.invalid_transition = inl refl
evaluation-cases ReservationEvaluation.consumed_cannot_be_released = inr (inl refl)

-- What a release that was carried out did.
pub record IsReleased (store : Store) (settlement_id : String) (reason : ReservationReleaseReason)
    (expired : Bool) (actor : Principal) (ids : MovementIds) (now : ℕ) (store' : Store)
    : Type 0 where
  pub reservation : Reservation
  pub id : ReservationTransitionId
  pub to : ReservationStatus
  pub movement : PairedMovement
  pub found : lock_reservation store settlement_id ≡ some reservation
  pub evaluated :
      evaluate_reservation_transition (some reservation.status) (release_trigger expired)
      ≡ ReservationEvaluation.ok id to movement
  pub written : write_release store reservation to movement reason expired actor ids now ≡ store'

-- What a consumption that was carried out did.
pub record IsConsumed (store : Store) (settlement_id : String) (ids : MovementIds) (now : ℕ)
    (store' : Store) : Type 0 where
  pub reservation : Reservation
  pub found : lock_reservation store settlement_id ≡ some reservation
  pub written : write_consumption store reservation ids now ≡ store'

-- After the lock of a facility: a write, an answer without one, or the error of the lock.
locked_run :
    {A : Type 0} (store store' done : Store) (lock : Result LiquidityError (Option FacilityRow))
    (missing result answer : A)
    → let k : Option FacilityRow → Result ServiceError (Store × A) =
        λ found. elim found [ none ↦ ok (store, missing) | some _ ↦ ok (done, answer) ] in
      (of_liquidity lock >>= k) ≡ ok (store', result) → (store ≡ store') ⊎ (done ≡ store')
unfolding of_liquidity
locked_run store store' done (ok none) missing result answer run = inl (first_of run)
locked_run store store' done (ok (some _)) missing result answer run = inr (first_of run)
locked_run store store' done (err e) missing result answer run = absurd (err_ok run)

-- The same where the row that the lock reads is not used.
locked_write :
    {A : Type 0} (store' done : Store) (lock : Result LiquidityError (Option FacilityRow))
    (result answer : A)
    → let k : Option FacilityRow → Result ServiceError (Store × A) = λ _. ok (done, answer) in
      (of_liquidity lock >>= k) ≡ ok (store', result) → done ≡ store'
unfolding of_liquidity
locked_write store' done (ok found) result answer run = first_of run
locked_write store' done (err e) result answer run = absurd (err_ok run)

pub release_reservation-cases :
    (store : Store) (settlement_id : String) (reason : ReservationReleaseReason) (expired : Bool)
    (actor : Principal) (ids : MovementIds) (now : ℕ) {store' : Store} {result : ReservationResult}
    → release_reservation store settlement_id reason expired actor ids now ≡ ok (store', result)
    → (store ≡ store') ⊎ IsReleased store settlement_id reason expired actor ids now store'
unfolding release_reservation
release_reservation-cases store settlement_id reason expired actor ids now {store'} {result} run =
    elim (Option-cases (lock_reservation store settlement_id)) [
      | inl n ↦ inl (first_of (rw (n, release_reservation) at run))
      | inr (r, s) ↦
          let run1 = rw (s, release_reservation) at run in
          elim (evaluation-cases
            (evaluate_reservation_transition (some r.status) (release_trigger expired))) [
              | inl i ↦ inl (first_of (rw i at run1))
              | inr (inl c) ↦ inl (first_of (rw c at run1))
              | inr (inr (id, to, m, o)) ↦
                  elim (locked_run store store'
                    (write_release store r to m reason expired actor ids now)
                    (lock_facility store r.facility_id) _ result _ (rw o at run1)) [
                      | inl same_store ↦ inl same_store
                      | inr done ↦ inr (record {
                        reservation = r;
                        id = id;
                        to = to;
                        movement = m;
                        found = s;
                        evaluated = o;
                        written = done;
                      })
                    ]
            ]
    ]

pub consume_reservation-cases :
    (store : Store) (settlement_id : String) (ids : MovementIds) (now : ℕ) {store' : Store}
    {result : ReservationResult}
    → consume_reservation store settlement_id ids now ≡ ok (store', result)
    → (store ≡ store') ⊎ IsConsumed store settlement_id ids now store'
unfolding consume_reservation
consume_reservation-cases store settlement_id ids now {store'} {result} run =
    elim (Option-cases (lock_reservation store settlement_id)) [
      | inl n ↦ inl (first_of (rw (n, consume_reservation) at run))
      | inr (r, s) ↦
          let run1 = rw (s, consume_reservation) at run in
          elim (evaluation-cases
            (evaluate_reservation_transition (some r.status) ReservationTrigger.consume)) [
              | inl i ↦ inl (first_of (rw i at run1))
              | inr (inl c) ↦ inl (first_of (rw c at run1))
              | inr (inr (id, to, m, o)) ↦ inr (record {
                reservation = r;
                found = s;
                written =
                    locked_write store' (write_consumption store r ids now)
                      (lock_facility store r.facility_id) result _ (rw o at run1);
              })
            ]
    ]
