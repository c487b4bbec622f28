-- ===== src/Payout/Service/Inserting.antt =====
-- A dispatch and a retry insert an attempt only where every attempt of the settlement was rejected.
use Prim.Native.String.{String}
use text.Mathlib.Text.{◌==◌ as str_eq}
use text.Mathlib.TextEquality.{eq_iff}
use inrsettling.Base.{
  ℕ, suc, ◌≡◌, ◌≢◌, refl, sym, subst, ◌⊎◌, inl, inr, Bool, true, false, ◌||◌, Bool-cases,
  Option-cases, List, [], ◌∷◌, map,
}
use inrsettling.Base.Lists.{find, length, All}
use inrsettling.Settlement.Service.Defs as Core
use inrsettling.Settlement.Service.Apply.{apply_transition}
use inrsettling.Payout.Attempt.{
  PayoutAttemptStatus, AttemptSummary, allocate_attempt_number, allocate_from, allocate_after,
  allocate_in_flight, latest_onto, terminal_attempt_permits_another, payout_idempotency_key,
}
use inrsettling.Payout.Service.Defs.{
  Value, Attempt, Store, attempts_of, latest_attempt, summary, update_attempt, column, is_null,
  is_falsy,
}
use inrsettling.Payout.Service.Dispatch.{
  DispatchInput, dispatch_payout, dispatch_allocated, cross, insert_first, first_row, is_allocated,
  is_first, dispatch_call,
}
use inrsettling.Payout.Service.Moves.{IsMoved, Moves}
use inrsettling.Payout.Service.Order.{IsGivenUp, InOrder, latest-InOrder}
use inrsettling.Payout.Service.Soundness.{IsSound, changed, map-IsDistinct, map-InOrder}
use inrsettling.Payout.Service.Steps.{IsNew}

-- A write to the latest attempt that keeps its identity.
write-IsSound :
    (s : Store) (settlement_id : String) {t : Store}
    → IsSound s.attempts
    → (m : IsMoved s settlement_id t) → IsSound (update_attempt m.attempt.id m.change s).attempts
unfolding update_attempt latest_attempt changed
write-IsSound s settlement_id h m =
    let (rest, listed) =
      latest-InOrder (attempts_of settlement_id s.attempts) (h.ordered settlement_id) m.found in
    record {
      distinct = map-IsDistinct m.attempt.id m.change m.keeps s.attempts h.distinct;
      ordered = λ s'.
          map-InOrder m.attempt.id m.change m.keeps s.attempts settlement_id s' m.attempt rest
            h.distinct listed refl (h.ordered s');
    }

pub moved-IsSound :
    (s t : Store) (settlement_id : String)
    → IsSound s.attempts
    → Moves s settlement_id t
    → IsSound t.attempts
moved-IsSound s t settlement_id h (inl kept) = subst IsSound (sym kept) h
moved-IsSound s t settlement_id h (inr m) =
    subst IsSound (sym m.written) (write-IsSound s settlement_id h m)

-- A new attempt that is one above those of its settlement, which are all rejected.
inserted-IsSound :
    (xs : List Attempt) (a : Attempt)
    → IsSound xs
    → All (λ b. b.id ≢ a.id) xs
    → a.attempt_number ≡ suc (length (attempts_of a.settlement_id xs))
    → All IsGivenUp (attempts_of a.settlement_id xs)
    → IsSound (a ∷ xs)
unfolding attempts_of
inserted-IsSound xs a h fresh number up = record {
  distinct = (fresh, h.distinct);
  ordered = λ s. elim (Bool-cases (str_eq a.settlement_id s)) [
    | inr n ↦ rw n (h.ordered s)
    | inl y ↦
        let e = (eq_iff a.settlement_id s).0 y in
        rw y (
          subst
            (λ x.
              (a.attempt_number ≡ suc (length (attempts_of x xs)))
              × All IsGivenUp (attempts_of x xs)
              × InOrder (attempts_of x xs))
            e (number, up, h.ordered a.settlement_id))
  ];
}

-- What a dispatch or a retry inserts.
pub record IsInserted (store : Store) (settlement_id id : String) (after : Store) : Type 0 where
  pub attempt : Attempt
  pub its_id : attempt.id ≡ id
  pub its_settlement : attempt.settlement_id ≡ settlement_id
  pub number : attempt.attempt_number ≡ suc (length (attempts_of settlement_id store.attempts))
  pub up : All IsGivenUp (attempts_of settlement_id store.attempts)
  pub written : after.attempts ≡ attempt ∷ store.attempts

abbrev pub Inserts : Store → String → String → Store → Type 0
Inserts store settlement_id id after =
    (after.attempts ≡ store.attempts) ⊎ IsInserted store settlement_id id after

pub Inserts-IsSound :
    (s t : Store) (settlement_id id : String)
    → IsSound s.attempts
    → IsNew id s
    → Inserts s settlement_id id t
    → IsSound t.attempts
Inserts-IsSound s t settlement_id id h fresh (inl kept) = subst IsSound (sym kept) h
Inserts-IsSound s t settlement_id id h fresh (inr g) =
    let here : (P : String → Type 0) → P settlement_id → P g.attempt.settlement_id =
      λ P x. subst P (sym g.its_settlement) x in
    subst IsSound (sym g.written) (
      inserted-IsSound s.attempts g.attempt h
        (subst (λ x. All (λ (b : Attempt). b.id ≢ x) s.attempts) (sym g.its_id) fresh)
        (here (λ x. g.attempt.attempt_number ≡ suc (length (attempts_of x s.attempts))) g.number)
        (here (λ x. All IsGivenUp (attempts_of x s.attempts)) g.up))

after_not_first :
    (n : ℕ) (s : PayoutAttemptStatus)
    → is_first (allocate_after (record { attempt_number = n; status = s })) ≡ false
unfolding is_first allocate_after terminal_attempt_permits_another
after_not_first n PayoutAttemptStatus.submitted = refl
after_not_first n _ = refl

in_flight_not_first :
    (n : ℕ) (s : PayoutAttemptStatus)
    → is_first (allocate_in_flight (record { attempt_number = n; status = s })) ≡ false
unfolding is_first allocate_in_flight
in_flight_not_first n PayoutAttemptStatus.submitted = refl
in_flight_not_first n _ = refl

from_not_first :
    (a : AttemptSummary) (rest flying : List AttemptSummary)
    → is_first (allocate_from a rest flying) ≡ false
unfolding allocate_from
from_not_first a rest [] = let x = latest_onto a rest in after_not_first x.attempt_number x.status
from_not_first a rest (b ∷ bs) =
    let x = latest_onto b bs in in_flight_not_first x.attempt_number x.status

-- Only where there is no attempt is an attempt the first.
first_none :
    (xs : List Attempt) → is_first (allocate_attempt_number (map summary xs)) ≡ true → xs ≡ []
unfolding allocate_attempt_number
first_none [] h = refl
first_none (x ∷ xs) h = absurd (cc (from_not_first (summary x) (map summary xs) _, h))

insert_first-Inserts :
    (store : Store) (row : Attempt) (x : Core.Store Value × Core.Outcome)
    → ((insert_first store row x).0.attempts ≡ store.attempts)
      ⊎ ((insert_first store row x).0.attempts ≡ row ∷ store.attempts)
unfolding insert_first
insert_first-Inserts store row (core, Core.Outcome.ok _ _ _ _) = inr refl
insert_first-Inserts store row (core, Core.Outcome.raised) = inl refl
insert_first-Inserts store row (core, _) = inl refl

module _ (store : Store) (input : DispatchInput) (frozen_verified : Bool)
    (current : Core.Settlement Value) (id : String) (now : ℕ) where
  cross-Inserts :
      attempts_of input.settlement_id store.attempts ≡ []
      → Inserts store input.settlement_id id (cross store input frozen_verified current id now).0
  unfolding cross first_row
  cross-Inserts none_yet = elim (Option-cases (payout_idempotency_key input.settlement_id 1)) [
    | inl no_key ↦ rw (no_key, cross) (inl refl)
    | inr (key, e) ↦
        rw (e, cross)
          (elim (insert_first-Inserts store (first_row input current key id now)
            (apply_transition store.core (dispatch_call input frozen_verified id now))) [
              | inl kept ↦ inl kept
              | inr done ↦ inr (record {
                attempt = first_row input current key id now;
                its_id = refl;
                its_settlement = refl;
                number = rw none_yet refl;
                up = rw none_yet tt;
                written = done;
              })
            ])
  ]

  dispatch_allocated-Inserts :
      Inserts store input.settlement_id id
        (dispatch_allocated store input frozen_verified current id now (
          allocate_attempt_number (map summary (attempts_of input.settlement_id store.attempts)))).0
  unfolding dispatch_allocated
  dispatch_allocated-Inserts =
      let xs = attempts_of input.settlement_id store.attempts in
      let allocation = allocate_attempt_number (map summary xs) in
      elim (Bool-cases (is_allocated allocation)) [
        | inr n ↦ rw n (inl refl)
        | inl y ↦ elim (Bool-cases (is_null (column "pointOfNoReturnAt" current))) [
          | inr crossed ↦ rw (y, crossed) (inl refl)
          | inl before ↦ elim (Bool-cases (is_first allocation)) [
            | inr later ↦ rw (y, before, later) (inl refl)
            | inl first ↦ rw (y, before, first) (cross-Inserts (first_none xs first))
          ]
        ]
      ]

pub dispatch_payout-Inserts :
    (store : Store) (input : DispatchInput) (frozen_verified : Bool) (id : String) (now : ℕ)
    → Inserts store input.settlement_id id (dispatch_payout store input frozen_verified id now).0
unfolding dispatch_payout
dispatch_payout-Inserts store input frozen_verified id now =
    elim (Option-cases (find (Core.has_id input.settlement_id) store.core.settlements)) [
      | inl gone ↦ rw (gone, dispatch_payout) (inl refl)
      | inr (current, f) ↦ elim (Bool-cases (is_null (column "cancellationRequestedAt" current))) [
        | inr pending ↦ rw (f, pending, dispatch_payout) (inl refl)
        | inl unasked ↦
            elim (Bool-cases (
              is_falsy (column "destinationVersionId" current)
              || is_falsy (column "authorizedTermsHash" current))) [
                | inl missing ↦ rw (f, unasked, missing, dispatch_payout) (inl refl)
                | inr there ↦
                    rw (f, unasked, there, dispatch_payout)
                      (dispatch_allocated-Inserts store input frozen_verified current id now)
              ]
      ]
    ]
