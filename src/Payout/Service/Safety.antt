-- ===== src/Payout/Service/Safety.antt =====
-- No settlement is paid twice: what holds of the attempts in every store that the payout service
-- reaches (packages/app/src/payout.service.ts).
use Prim.Native.String.{String}
use mathlib.Core.List.{Memᴰ}
use inrsettling.Base.{
  ℕ, ◌+◌, ◌≡◌, ◌≢◌, refl, sym, ◌∙◌, subst, inl, inr, true, Bool-cases, Option-cases, List, [], ◌∷◌,
  arith,
}
use inrsettling.Base.Lists.{All-Memᴰ}
use inrsettling.Payout.Attempt.{PayoutAttemptStatus, payout_idempotency_key}
use inrsettling.Payout.Service.Defs.{Attempt, Store, attempts_of, latest_attempt}
use inrsettling.Payout.Service.Retry.{
  RetryInput, retry_payout, is_rejected, insert_retry, retry_row,
}
use inrsettling.Payout.Service.Moving.{apply_payout_outcome-Moves, sweep_payout_sla-Moves}
use inrsettling.Payout.Service.Order.{IsGivenUp, InOrder, latest-InOrder}
use inrsettling.Payout.Service.Soundness.{IsSound}
use inrsettling.Payout.Service.Steps.{Step, Reach}
use inrsettling.Payout.Service.Inserting.{
  Inserts, moved-IsSound, Inserts-IsSound, dispatch_payout-Inserts,
}

rejected_of : (s : PayoutAttemptStatus) → is_rejected s ≡ true → s ≡ PayoutAttemptStatus.rejected
unfolding is_rejected
rejected_of PayoutAttemptStatus.rejected h = refl
rejected_of PayoutAttemptStatus.submitted h = cc
rejected_of _ h = cc

retry_payout-Inserts :
    (store : Store) (input : RetryInput) (id : String) (now : ℕ)
    → IsSound store.attempts
    → Inserts store input.settlement_id id (retry_payout store input id now).0
unfolding retry_payout insert_retry retry_row latest_attempt
retry_payout-Inserts store input id now h =
    elim (Option-cases (latest_attempt store input.settlement_id)) [
      | inl gone ↦ rw (gone, retry_payout) (inl refl)
      | inr (previous, found) ↦ elim (Bool-cases (is_rejected previous.status)) [
        | inr n ↦ rw (found, n, retry_payout) (inl refl)
        | inl y ↦
            let xs = attempts_of input.settlement_id store.attempts in
            let ordered = h.ordered input.settlement_id in
            let (rest, listed) = latest-InOrder xs ordered found in
            let (number, up, _) = subst InOrder listed ordered in
            elim (Option-cases
              (payout_idempotency_key input.settlement_id (previous.attempt_number + 1))) [
                | inl no_key ↦ rw (found, y, no_key, retry_payout) (inl refl)
                | inr (key, e) ↦
                    rw (found, y, e, retry_payout)
                      (inr (record {
                        attempt = retry_row input previous key id now;
                        its_id = refl;
                        its_settlement = refl;
                        number = rw listed (omega (arith, number));
                        up = rw listed (rejected_of previous.status y, up);
                        written = refl;
                      }))
              ]
      ]
    ]

Step-IsSound : (s t : Store) → Step s t → IsSound s.attempts → IsSound t.attempts
Step-IsSound s t (Step.dispatch input frozen id now fresh e) h =
    Inserts-IsSound s t input.settlement_id id h fresh
      (subst (Inserts s input.settlement_id id) e (dispatch_payout-Inserts s input frozen id now))
Step-IsSound s t (Step.retry input id now fresh e) h =
    Inserts-IsSound s t input.settlement_id id h fresh
      (subst (Inserts s input.settlement_id id) e (retry_payout-Inserts s input id now h))
Step-IsSound s t (Step.outcome input now e) h =
    subst (λ (x : Store). IsSound x.attempts) e
      (moved-IsSound s _ input.settlement_id h (apply_payout_outcome-Moves s input now))
Step-IsSound s t (Step.sweep settlement_id actor now e) h =
    subst (λ (x : Store). IsSound x.attempts) e
      (moved-IsSound s _ settlement_id h (sweep_payout_sla-Moves s settlement_id actor now))
Step-IsSound s t (Step.transition input e) h = subst (λ (x : Store). IsSound x.attempts) e h

pub Reach-IsSound : {s t : Store} → Reach s t → IsSound s.attempts → IsSound t.attempts
Reach-IsSound Reach.here h = h
Reach-IsSound (Reach.next {t} {u} r step) h = Step-IsSound t u step (Reach-IsSound r h)

pub empty-IsSound : IsSound []
unfolding attempts_of
empty-IsSound = record { distinct = tt; ordered = λ s. tt }

one_live :
    (xs : List Attempt) (a b : Attempt)
    → InOrder xs
    → Memᴰ a xs
    → Memᴰ b xs
    → a.status ≢ PayoutAttemptStatus.rejected
    → b.status ≢ PayoutAttemptStatus.rejected
    → a ≡ b
one_live [] a b h m k na nb = elim m [ ]
one_live (x ∷ xs) a b h (Memᴰ.head p) (Memᴰ.head q) na nb = p ∙ sym q
one_live (x ∷ xs) a b h (Memᴰ.head p) (Memᴰ.tail k) na nb =
    let (number, up, order) = h in absurd (nb (All-Memᴰ IsGivenUp b xs k up))
one_live (x ∷ xs) a b h (Memᴰ.tail m) k na nb =
    let (number, up, order) = h in absurd (na (All-Memᴰ IsGivenUp a xs m up))

-- From a store without attempts, whatever dispatches, retries, provider's outcomes, sweeps and
-- transitions are run, in any order and with any refusals, a settlement has at most one attempt that
-- was not rejected: two that are submitted, accepted, unknown, credited or returned are one and the same
-- (INV-24).
pub Reach-one_live :
    {s t : Store} (settlement_id : String) (a b : Attempt)
    → s.attempts ≡ []
    → Reach s t
    → Memᴰ a (attempts_of settlement_id t.attempts)
    → Memᴰ b (attempts_of settlement_id t.attempts)
    → a.status ≢ PayoutAttemptStatus.rejected
    → b.status ≢ PayoutAttemptStatus.rejected
    → a ≡ b
Reach-one_live {s} {t} settlement_id a b start reached m k na nb =
    let sound = Reach-IsSound reached (subst IsSound (sym start) empty-IsSound) in
    one_live (attempts_of settlement_id t.attempts) a b (sound.ordered settlement_id) m k na nb
