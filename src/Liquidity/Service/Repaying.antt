-- ===== src/Liquidity/Service/Repaying.antt =====
-- Runs of `requestRepayment` and `advanceRepayment` (packages/app/src/liquidity.service.ts), from
-- their answers back.
use Prim.Native.String.{String}
use text.Mathlib.Text.{◌==◌ as str_eq}
use inrsettling.Base.{
  ℕ, ◌≡◌, ◌≢◌, ◌⊎◌, refl, sym, ap, ◌∙◌, Bool, true, false, Bool-cases, Option-cases, inl, inr,
  Option, none, some, if◌then◌else◌, arith,
}
use inrsettling.Base.Lists.{find}
use inrsettling.Base.Int.{ℤ, pos, ltb_ℤ, leb_ℤ, ◌≤ℤ◌, ◌<ℤ◌}
use inrsettling.Base.Result.{Result, ok, err, ◌>>=◌}
use inrsettling.Money.Amount.{same_currency}
use inrsettling.Liquidity.Facility.{LiquidityError}
use inrsettling.Liquidity.Repayment.{
  RepaymentTrigger, RepaymentEvaluation, evaluate_repayment_transition,
}
use inrsettling.Liquidity.Service.Defs.{Repayment, Store, FacilityRow, MovementIds, lock_facility}
use inrsettling.Liquidity.Service.Repay.{
  RepaymentInput, RepaymentResult, RepaymentError, of_facility_lock, is_duplicate,
  eligible_outstanding, add_repayment, insert_repayment, new_repayment, request_from,
  request_repayment,
}
use inrsettling.Liquidity.Service.Advance.{
  AdvanceInput, advanced_row, write_repayment, update_repayment, restore, advance_repayment,
}
use inrsettling.Liquidity.Service.Reserving.{same_of}

abbrev Run : Type 0
Run = Result RepaymentError (Store × RepaymentResult)

first_of : {s t : Store} {a b : RepaymentResult} → ◌≡◌ {A = Run} (ok (s, a)) (ok (t, b)) → s ≡ t
first_of h = cc

err_ok : {e : RepaymentError} {a : Store × RepaymentResult} → ◌≢◌ {A = Run} (err e) (ok a)
err_ok h = cc

second_of : {s t : Store} {a b : RepaymentResult} → ◌≡◌ {A = Run} (ok (s, a)) (ok (t, b)) → a ≡ b
second_of h = cc

-- A write that the index lets through, and what comes after it.
written_of :
    {w : Store} {a : Store × RepaymentResult} (twin : Bool) (after : Store → Run)
    → let write : Result RepaymentError Store =
        if twin then err RepaymentError.duplicate_live else ok w in
      (write >>= after) ≡ ok a → after w ≡ ok a
written_of false after run = run
written_of true after run = absurd (err_ok run)

-- What a request that was accepted did.
pub record IsRequested (store : Store) (input : RepaymentInput) (id : String) (store' : Store)
    : Type 0 where
  pub row : FacilityRow
  pub locked : lock_facility store input.facility_id ≡ ok (some row)
  pub currency : input.amount.currency ≡ row.raw.currency
  pub positive : pos 0 <ℤ input.amount.minor_units
  pub covered : input.amount.minor_units ≤ℤ eligible_outstanding store input.facility_id
  pub inserted : add_repayment store input.actor (new_repayment id input) ≡ store'

positive_of : (a : ℤ) → leb_ℤ a (pos 0) ≡ false → pos 0 <ℤ a
positive_of a h = ground arith

covered_of : (a b : ℤ) → ltb_ℤ a b ≡ false → b ≤ℤ a
covered_of a b h = ground arith

abbrev pub is_done : RepaymentResult → Bool
is_done (RepaymentResult.done _ _ _) = true
is_done _ = false

refusal :
    {s t : Store} {b : RepaymentResult} (a : RepaymentResult)
    → is_done a ≡ false
    → ◌≡◌ {A = Run} (ok (s, a)) (ok (t, b))
    → (s ≡ t) × (is_done b ≡ false)
refusal a k h = (first_of h, ap is_done (sym (second_of h)) ∙ k)

module _ (store : Store) (input : RepaymentInput) (id : String) {store' : Store}
    {result : RepaymentResult} where
  inserted_of :
      (answer : RepaymentResult)
      → let after : Store → Run = λ written. ok (written, answer) in
        (insert_repayment store input.actor (new_repayment id input) >>= after)
          ≡ ok (store', result)
        → add_repayment store input.actor (new_repayment id input) ≡ store'
  unfolding insert_repayment
  inserted_of answer run = first_of (
      written_of (is_duplicate (new_repayment id input) store.repayments)
        (λ written. ok (written, answer)) run)

  request_from-cases :
      (row : FacilityRow)
      → lock_facility store input.facility_id ≡ ok (some row)
      → request_from store input row id ≡ ok (store', result)
      → ((store ≡ store') × (is_done result ≡ false)) ⊎ IsRequested store input id store'
  unfolding request_from
  request_from-cases row locked run =
      elim (Bool-cases (same_currency input.amount.currency row.raw.currency)) [
        | inr n ↦ inl (refusal RepaymentResult.currency_mismatch refl (rw (n, request_from) at run))
        | inl c ↦
            let run1 = rw (c, request_from) at run in
            elim (Bool-cases (leb_ℤ input.amount.minor_units (pos 0))) [
              | inl n ↦ inl (refusal RepaymentResult.amount_not_positive refl (rw n at run1))
              | inr p ↦
                  let run2 = rw p at run1 in
                  elim (Bool-cases (
                    ltb_ℤ (eligible_outstanding store input.facility_id)
                      input.amount.minor_units)) [
                        | inl n ↦
                            inl (refusal RepaymentResult.exceeds_outstanding refl (rw n at run2))
                        | inr e ↦ inr (record {
                          row = row;
                          locked = locked;
                          currency = same_of _ _ c;
                          positive = positive_of input.amount.minor_units p;
                          covered = covered_of _ input.amount.minor_units e;
                          inserted = inserted_of _ (rw e at run2);
                        })
                      ]
            ]
      ]

  request_lock-cases :
      (lock : Result LiquidityError (Option FacilityRow))
      → lock_facility store input.facility_id ≡ lock
      → let k : Option FacilityRow → Run = λ found. elim found [
        | none ↦ ok (store, RepaymentResult.facility_not_found)
        | some row ↦ request_from store input row id
      ] in
        (of_facility_lock lock >>= k) ≡ ok (store', result)
        → ((store ≡ store') × (is_done result ≡ false)) ⊎ IsRequested store input id store'
  unfolding of_facility_lock
  request_lock-cases (ok none) e run = inl (refusal RepaymentResult.facility_not_found refl run)
  request_lock-cases (ok (some row)) e run = request_from-cases row e run
  request_lock-cases (err x) e run = absurd (err_ok run)

  pub request_repayment-cases :
      request_repayment store input id ≡ ok (store', result)
      → ((store ≡ store') × (is_done result ≡ false)) ⊎ IsRequested store input id store'
  unfolding request_repayment of_facility_lock
  request_repayment-cases run =
      elim (Option-cases (evaluate_repayment_transition none RepaymentTrigger.request)) [
        | inl n ↦
            inl (refusal RepaymentResult.invalid_transition refl (rw (n, request_repayment) at run))
        | inr (e, s) ↦
            request_lock-cases (lock_facility store input.facility_id) refl
              (rw (s, request_repayment) at run)
      ]

-- What an advance that was carried out did.
pub record IsAdvanced (store : Store) (input : AdvanceInput) (ids : MovementIds) (now : ℕ)
    (store' : Store) (result : RepaymentResult) : Type 0 where
  pub current : Repayment
  pub evaluation : RepaymentEvaluation
  pub found : find (λ r. str_eq r.id input.repayment_id) store.repayments ≡ some current
  pub evaluated :
      evaluate_repayment_transition (some current.status) input.trigger ≡ some evaluation
  pub done :
      restore input evaluation current ids
        (write_repayment current.id evaluation input.provider_reference now store)
      ≡ store'
  pub answer : RepaymentResult.done current.id evaluation.to evaluation.restores_capacity ≡ result

-- The table has no row for what is asked of the repayment that was found, if any.
abbrev pub Unlisted : Store → AdvanceInput → Type 0
Unlisted store input =
    (r : Repayment)
    → find (λ (x : Repayment). str_eq x.id input.repayment_id) store.repayments ≡ some r
    → evaluate_repayment_transition (some r.status) input.trigger ≡ none

module _ (store : Store) (input : AdvanceInput) (ids : MovementIds) (now : ℕ) {store' : Store}
    {result : RepaymentResult} where
  locked_answer :
      (done : Store) (answer : RepaymentResult) (lock : Result LiquidityError (Option FacilityRow))
      → let k : Option FacilityRow → Run = λ _. ok (done, answer) in
        (of_facility_lock lock >>= k) ≡ ok (store', result) → (done ≡ store') × (answer ≡ result)
  unfolding of_facility_lock
  locked_answer done answer (ok found) run = (first_of run, second_of run)
  locked_answer done answer (err x) run = absurd (err_ok run)

  updated_answer :
      (r : Repayment) (e : RepaymentEvaluation)
      → let after : Store → Run = λ written.
        of_facility_lock
          (if e.restores_capacity then lock_facility written r.facility_id else ok none)
        >>= λ _.
            ok
              (restore input e r ids written, RepaymentResult.done r.id e.to e.restores_capacity) in
        (update_repayment r e input.provider_reference now store >>= after) ≡ ok (store', result)
        → (restore input e r ids (write_repayment r.id e input.provider_reference now store)
            ≡ store')
          × (RepaymentResult.done r.id e.to e.restores_capacity ≡ result)
  unfolding update_repayment
  updated_answer r e run = locked_answer _ _ _ (
      written_of (is_duplicate (advanced_row e input.provider_reference now r) store.repayments) _
        run)

  pub advance_repayment-cases :
      advance_repayment store input ids now ≡ ok (store', result)
      → ((store ≡ store') × Unlisted store input) ⊎ IsAdvanced store input ids now store' result
  unfolding advance_repayment
  advance_repayment-cases run =
      elim (Option-cases
        (find (λ (r : Repayment). str_eq r.id input.repayment_id) store.repayments)) [
          | inl n ↦ inl (first_of (rw (n, advance_repayment) at run), λ r s. absurd (cc))
          | inr (r, s) ↦
              let run1 = rw (s, advance_repayment) at run in
              elim (Option-cases (evaluate_repayment_transition (some r.status) input.trigger)) [
                | inl n ↦ inl (first_of (rw n at run1), λ x t. cc)
                | inr (e, t) ↦
                    let (d, a) = updated_answer r e (rw t at run1) in
                    inr (record {
                      current = r;
                      evaluation = e;
                      found = s;
                      evaluated = t;
                      done = d;
                      answer = a;
                    })
              ]
        ]
