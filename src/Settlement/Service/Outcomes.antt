-- ===== src/Settlement/Service/Outcomes.antt =====
-- A call of the service either carries out one accepted transition or changes nothing.
use Prim.Native.String.{String}
use inrsettling.Base.{
  ◌≡◌, refl, ◌⊎◌, inl, inr, Bool, true, false, Option, some, none, List, [], ◌∷◌, ℕ, arith,
  Option-cases,
}
use inrsettling.Base.Lists.{find}
use inrsettling.Settlement.Status.{CompanionEvent}
use inrsettling.Settlement.Evaluate.{TransitionResult, Accepted, evaluate_transition}
use inrsettling.Settlement.Service.Defs.{Settlement, Store, ApplyInput, Outcome, has_id}
use inrsettling.Settlement.Service.Apply.{
  request_of, illegal_companions, commit, write_row, check_companions, carry_out, check_stale,
  check_current, check_patch, apply_transition, trespassing, check_version,
}

abbrev pub is_ok : Outcome → Bool
is_ok (Outcome.ok _ _ _ _) = true
is_ok _ = false

check_version-refuses :
    (expected : Option ℕ) (actual : ℕ) (refusal : Outcome)
    → check_version expected actual ≡ some refusal
    → is_ok refusal ≡ false
unfolding check_version
check_version-refuses expected actual refusal h = ground arith

module _ {V : Type 0} (store : Store V) (input : ApplyInput V) where
  -- The call found the row, the machine accepted, the row was written and the logs grew.
  pub record Applied (result : Store V × Outcome) : Type 0 where
    pub current : Settlement V
    pub accepted : Accepted
    pub rows : List (Settlement V)
    pub untouched_machine : trespassing input.patch ≡ []
    pub found : find (has_id input.settlement_id) store.settlements ≡ some current
    pub fresh : check_version input.expected_version current.version ≡ none
    pub evaluated : evaluate_transition (request_of input current) ≡ TransitionResult.ok accepted
    pub permitted : illegal_companions accepted input ≡ []
    pub written : write_row store input current accepted.to ≡ some rows
    pub committed : result ≡ commit store input current accepted (some rows)

  abbrev pub Refused : Store V × Outcome → Type 0
  Refused result = (result.0 ≡ store) × (is_ok result.1 ≡ false)

  module _ (untouched : trespassing input.patch ≡ []) (current : Settlement V)
      (found : find (has_id input.settlement_id) store.settlements ≡ some current) where
    module _ (fresh : check_version input.expected_version current.version ≡ none) where
      check_companions-cases :
          (a : Accepted)
          → evaluate_transition (request_of input current) ≡ TransitionResult.ok a
          → (es : List CompanionEvent) → illegal_companions a input ≡ es
          → Refused (check_companions store input current a es)
            ⊎ Applied (check_companions store input current a es)
      unfolding check_companions
      check_companions-cases a e (c ∷ es) illegal = inl (refl, refl)
      check_companions-cases a e [] legal =
          elim (Option-cases (write_row store input current a.to)) [
            | inl failed ↦ inl (unfold commit in rw failed (refl, refl))
            | inr (rows, w) ↦ inr (record {
              current = current;
              accepted = a;
              rows = rows;
              untouched_machine = untouched;
              found = found;
              fresh = fresh;
              evaluated = e;
              permitted = legal;
              written = w;
              committed = rw w;
            })
          ]

      carry_out-cases :
          (result : TransitionResult)
          → evaluate_transition (request_of input current) ≡ result
          → Refused (carry_out store input current result)
            ⊎ Applied (carry_out store input current result)
      unfolding carry_out
      carry_out-cases (TransitionResult.ok a) e =
          check_companions-cases a e (illegal_companions a input) refl
      carry_out-cases (TransitionResult.invalid_transition f t) e = inl (refl, refl)
      carry_out-cases (TransitionResult.guard_failed i g) e = inl (refl, refl)
      carry_out-cases (TransitionResult.guard_unanswered i g) e = inl (refl, refl)
      carry_out-cases (TransitionResult.resume_target_unknown i) e = inl (refl, refl)

    check_stale-cases :
        (verdict : Option Outcome)
        → check_version input.expected_version current.version ≡ verdict
        → Refused (check_stale store input current verdict)
          ⊎ Applied (check_stale store input current verdict)
    unfolding check_stale check_version
    check_stale-cases none fresh =
        carry_out-cases fresh (evaluate_transition (request_of input current)) refl
    check_stale-cases (some refusal) stale =
        inl (refl, check_version-refuses input.expected_version current.version refusal stale)

  check_current-cases :
      trespassing input.patch ≡ []
      → (row : Option (Settlement V)) → find (has_id input.settlement_id) store.settlements ≡ row
      → Refused (check_current store input row) ⊎ Applied (check_current store input row)
  unfolding check_current
  check_current-cases untouched none found = inl (refl, refl)
  check_current-cases untouched (some current) found =
      check_stale-cases untouched current found
        (check_version input.expected_version current.version) refl

  check_patch-cases :
      (keys : List String)
      → trespassing input.patch ≡ keys
      → Refused (check_patch store input keys) ⊎ Applied (check_patch store input keys)
  unfolding check_patch
  check_patch-cases [] untouched =
      check_current-cases untouched (find (has_id input.settlement_id) store.settlements) refl
  check_patch-cases (k ∷ ks) touched = inl (refl, refl)

  -- Whatever the call is given: it is refused and leaves the store as it was, or it is applied: its patch
  -- left the machine's columns alone, the row was found in the expected version, the table accepted the
  -- trigger, the companions were permitted, the row was written, and the result is that of the commit.
  pub apply_transition_cases :
      Refused (apply_transition store input) ⊎ Applied (apply_transition store input)
  unfolding apply_transition
  apply_transition_cases = check_patch-cases (trespassing input.patch) refl
