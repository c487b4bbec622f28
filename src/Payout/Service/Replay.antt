-- ===== src/Payout/Service/Replay.antt =====
-- A provider's outcome names a settlement and not an attempt (`applyPayoutOutcome` of
-- packages/app/src/payout.service.ts): which attempt it moves.
use Prim.Native.String.{String}
use text.Mathlib.TextEquality.{eq_iff}
use inrsettling.Base.{
  ℕ, ◌+◌, ◌≡◌, refl, sym, ap, ◌∙◌, subst, inl, inr, true, false, Bool-cases, Option-cases, some,
  List, [], ◌∷◌,
}
use inrsettling.Base.Decimal.{Text}
use inrsettling.Payout.Attempt.{PayoutAttemptStatus, payout_idempotency_key}
use inrsettling.Payout.Service.Defs.{
  Attempt, Store, attempts_of, latest, latest_attempt, update_attempt,
}
use inrsettling.Payout.Service.Retry.{
  RetryInput, RetryResult, retry_payout, is_rejected, insert_retry, retry_row,
}
use inrsettling.Payout.Service.Outcome.{
  ProviderOutcome, PayoutOutcomeInput, PayoutResult, in_exception, awaits_answer,
}
use inrsettling.Payout.Service.Apply.{
  apply_payout_outcome, apply_to_attempt, apply_rejected, settle_answer, rejected_row,
}
use inrsettling.Payout.Service.Order.{InOrder, latest-head}
use inrsettling.Payout.Service.Soundness.{IsSound}
use inrsettling.Payout.Service.Steps.{Reach}
use inrsettling.Payout.Service.Safety.{Reach-IsSound, empty-IsSound}

record IsRetried (store : Store) (input : RetryInput) (id : String) (now : ℕ) (t : Store) (n : ℕ)
    (key : Text) : Type 0 where
  previous : Attempt
  numbered : n ≡ previous.attempt_number + 1
  written : t.attempts ≡ retry_row input previous key id now ∷ store.attempts

retried_injective :
    {s t : Store} {m n : ℕ} {k l : Text}
    → ◌≡◌ {A = Store × RetryResult} (s, RetryResult.retried m k) (t, RetryResult.retried n l)
    → (s ≡ t) × (m ≡ n) × (k ≡ l)
retried_injective e = (cc, cc, cc)

retry_payout-IsRetried :
    (store : Store) (input : RetryInput) (id : String) (now : ℕ) {t : Store} {n : ℕ} {key : Text}
    → retry_payout store input id now ≡ (t, RetryResult.retried n key)
    → IsRetried store input id now t n key
unfolding retry_payout insert_retry
retry_payout-IsRetried store input id now {t} {n} {key} run =
    elim (Option-cases (latest_attempt store input.settlement_id)) [
      | inl gone ↦ absurd (cc (rw (gone, retry_payout) at run))
      | inr (previous, found) ↦ elim (Bool-cases (is_rejected previous.status)) [
        | inr denied ↦ absurd (cc (rw (found, denied, retry_payout) at run))
        | inl y ↦
            elim (Option-cases
              (payout_idempotency_key input.settlement_id (previous.attempt_number + 1))) [
                | inl no_key ↦ absurd (cc (rw (found, y, no_key, retry_payout) at run))
                | inr (made, e) ↦
                    let (stores, numbers, keys) =
                      retried_injective (rw (found, y, e, retry_payout) at run) in
                    record {
                      previous = previous;
                      numbered = sym numbers;
                      written =
                          ap (λ s. s.attempts) (sym stores)
                          ∙ ap (λ k. retry_row input previous k id now ∷ store.attempts) keys;
                    }
              ]
      ]
    ]

apply_rejected-excepted :
    (store : Store) (input : PayoutOutcomeInput) (attempt : Attempt) (now : ℕ)
    → attempt.status ≡ PayoutAttemptStatus.submitted
    → in_exception store input.settlement_id ≡ true
    → apply_rejected store input attempt now ≡ (
      update_attempt attempt.id (rejected_row input now) store,
      PayoutResult.applied attempt.attempt_number PayoutAttemptStatus.rejected false true,
    )
unfolding apply_rejected settle_answer awaits_answer
apply_rejected-excepted store input attempt now waiting excepted =
    rw (waiting, apply_rejected) (rw excepted refl)

apply_payout_outcome-rejected :
    (store : Store) (input : PayoutOutcomeInput) (attempt : Attempt) (now : ℕ)
    → latest_attempt store input.settlement_id ≡ some attempt
    → input.trusted ≡ true
    → input.outcome ≡ ProviderOutcome.rejected
    → apply_payout_outcome store input now ≡ apply_rejected store input attempt now
unfolding apply_payout_outcome apply_to_attempt
apply_payout_outcome-rejected store input attempt now found trusted rejected =
    rw (trusted, found, apply_payout_outcome) (rw rejected refl)

-- The newest of a settlement's attempts is its latest.
latest_attempt-newest :
    (store : Store) (a : Attempt) (rest : List Attempt)
    → IsSound store.attempts
    → store.attempts ≡ a ∷ rest
    → latest_attempt store a.settlement_id ≡ some a
unfolding latest_attempt attempts_of
latest_attempt-newest store a rest sound e =
    let listed : attempts_of a.settlement_id store.attempts ≡ a ∷ attempts_of a.settlement_id rest =
      ap (attempts_of a.settlement_id) e
      ∙ rw ((eq_iff a.settlement_id a.settlement_id).1 refl) refl in
    ap latest listed
    ∙ latest-head a (attempts_of a.settlement_id rest)
        (subst InOrder listed (sound.ordered a.settlement_id))

-- In a store that the payouts reach from one without attempts, whose last step was a retry that
-- succeeded, and while the settlement is in an exception, a trusted rejection for the settlement, of
-- whichever attempt it was meant, marks the attempt that the retry submitted as rejected.
pub replayed_rejection :
    {s t : Store} (store : Store) (input : PayoutOutcomeInput) (again : RetryInput) (id : String)
    (now later : ℕ) {n : ℕ} {key : Text}
    → s.attempts ≡ []
    → Reach s t
    → retry_payout store again id now ≡ (t, RetryResult.retried n key)
    → input.settlement_id ≡ again.settlement_id
    → input.outcome ≡ ProviderOutcome.rejected
    → input.trusted ≡ true
    → in_exception t input.settlement_id ≡ true
    → apply_payout_outcome t input later ≡ (
      update_attempt id (rejected_row input later) t,
      PayoutResult.applied n PayoutAttemptStatus.rejected false true,
    )
unfolding retry_row
replayed_rejection {s} {t} store input again id now later {n} {key} start reached run same_id
      rejected trusted excepted =
    let g = retry_payout-IsRetried store again id now run in
    let row = retry_row again g.previous key id now in
    let sound = Reach-IsSound reached (subst (λ xs. IsSound xs) (sym start) empty-IsSound) in
    let found = latest_attempt-newest t row store.attempts sound g.written in
    let moved =
      apply_payout_outcome-rejected t input row later
        (subst (λ x. latest_attempt t x ≡ some row) (sym same_id) found) trusted rejected in
    moved
    ∙ apply_rejected-excepted t input row later refl excepted
    ∙ ap
        (λ k. (
          update_attempt id (rejected_row input later) t,
          PayoutResult.applied k PayoutAttemptStatus.rejected false true,
        ))
        (sym g.numbered)
