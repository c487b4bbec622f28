-- ===== src/Settlement/Evaluate/Laws.antt =====
-- When the evaluator accepts, and what it answers when it does not.
use inrsettling.Base.{
  ◌≡◌, refl, ◌↔◌, ◌≢◌, Bool, true, false, some, none, List, [], ◌∷◌, ◌++◌, arith, if◌then◌else◌,
  sym, subst, Option-cases, inl, inr,
}
use inrsettling.Base.Lists.{filter, All}
use inrsettling.Settlement.Status.{SettlementStatus}
use inrsettling.Settlement.Vocabulary.{Guard, TransitionId, TransitionId-discrete, Transition}
use inrsettling.Settlement.Evaluate.Defs.{
  GuardContext, TransitionRequest, Accepted, TransitionResult, ok, invalid_transition, from_accepts,
  is_unanswered, is_failed, acceptance, resolve_target, evaluate_row, evaluate_transition,
  check_failed, check_unanswered,
}
use inrsettling.Settlement.Evaluate.Table.{row_of, evaluate_transition_lem}

-- Every guard of the list is answered, and answered with true.
abbrev pub Holds : GuardContext → List Guard → Type 0
Holds c gs = All (λ g. c g ≡ some true) gs

Holds-answered :
    (c : GuardContext) (gs : List Guard) → Holds c gs → filter (is_unanswered c) gs ≡ []
unfolding is_unanswered
Holds-answered c [] h = refl
Holds-answered c (g ∷ gs) h = ground (arith, Holds-answered c gs h.1)

Holds-passed : (c : GuardContext) (gs : List Guard) → Holds c gs → filter (is_failed c) gs ≡ []
unfolding is_failed
Holds-passed c [] h = refl
Holds-passed c (g ∷ gs) h = ground (arith, Holds-passed c gs h.1)

filters-Holds :
    (c : GuardContext) (gs : List Guard)
    → filter (is_unanswered c) gs ≡ []
    → filter (is_failed c) gs ≡ []
    → Holds c gs
unfolding is_unanswered is_failed
filters-Holds c [] u f = tt
filters-Holds c (g ∷ gs) u f = ground (arith, filters-Holds c gs)

-- What the machine answers when it accepts by a row: the row, its events, and the destination, which
-- for T22 is where the exception came from.
pub record Answers (r : TransitionRequest) (t : Transition) (a : Accepted) : Type 0 where
  pub row : a.transition ≡ t
  pub resumed : t.id ≡ TransitionId.t22 → (a.to ≡ r.exception_entered_from) × (a.to ≢ none)
  pub moved : t.id ≢ TransitionId.t22 → a.to ≡ t.to
  pub event : a.status_event ≡ t.status_event
  pub required : a.required_companions ≡ t.companion_events
  pub permitted : a.permitted_companions ≡ t.companion_events ++ t.companion_choice

ok_injective : {a b : Accepted} → ok a ≡ ok b → a ≡ b
ok_injective h = cc

resume-Answers :
    (r : TransitionRequest) (t : Transition) (target : SettlementStatus)
    → t.id ≡ TransitionId.t22
    → r.exception_entered_from ≡ some target
    → Answers r t (acceptance t (some target))
resume-Answers r t target e from = record {
  row = refl;
  resumed = λ _. (sym from, λ h. cc);
  moved = λ ne. absurd (ne e);
  event = refl;
  required = refl;
  permitted = refl;
}

move-Answers :
    (r : TransitionRequest) (t : Transition)
    → t.id ≢ TransitionId.t22
    → Answers r t (acceptance t t.to)
move-Answers r t ne = record {
  row = refl;
  resumed = λ e. absurd (ne e);
  moved = λ _. refl;
  event = refl;
  required = refl;
  permitted = refl;
}

resolve_target-Answers :
    (r : TransitionRequest) (t : Transition) (a : Accepted)
    → resolve_target r t ≡ ok a
    → Answers r t a
unfolding resolve_target
resolve_target-Answers r t a h = elim (TransitionId-discrete t.id TransitionId.t22) [
  | yes e ↦ elim (Option-cases r.exception_entered_from) [
    | inl nowhere ↦ absurd (ground arith)
    | inr (target, from) ↦
        subst (Answers r t) (ok_injective (ground arith)) (resume-Answers r t target e from)
  ]
  | no ne ↦ subst (Answers r t) (ok_injective (ground arith)) (move-Answers r t ne)
]

Answers-resolve_target :
    (r : TransitionRequest) (t : Transition) (a : Accepted)
    → Answers r t a
    → resolve_target r t ≡ ok a
unfolding resolve_target
Answers-resolve_target r t a h = ground arith

evaluate_row-ok :
    (r : TransitionRequest) (t : Transition) (a : Accepted)
    → evaluate_row r t ≡ ok a
    → Holds r.guards t.guards × Answers r t a
unfolding evaluate_row check_unanswered check_failed
evaluate_row-ok r t a h =
    ground (arith, filters-Holds r.guards t.guards, resolve_target-Answers r t a)

ok-evaluate_row :
    (r : TransitionRequest) (t : Transition) (a : Accepted)
    → Holds r.guards t.guards
    → Answers r t a
    → evaluate_row r t ≡ ok a
unfolding evaluate_row
ok-evaluate_row r t a h k = rw (Holds-answered r.guards t.guards h) (
    unfold check_unanswered in
    rw (Holds-passed r.guards t.guards h) (unfold check_failed in (Answers-resolve_target r t a k)))

if-ok :
    (b : Bool) (m n : TransitionResult) (a : Accepted)
    → n ≢ ok a
    → ((if b then m else n) ≡ ok a) ↔ ((b ≡ true) × (m ≡ ok a))
if-ok true m n a ne = (λ h. (refl, h), λ h. h.1)
if-ok false m n a ne = (λ h. absurd (ne h), λ h. cc)

-- A request is accepted with an answer exactly when the row of its trigger lists the status, every
-- guard of the row is answered with true, and the answer is the machine's.
pub evaluate_transition-ok_iff :
    (r : TransitionRequest) (a : Accepted)
    → let t = row_of r.trigger in
      (evaluate_transition r ≡ ok a)
      ↔ ((from_accepts r.from t.from ≡ true) × Holds r.guards t.guards × Answers r t a)
evaluate_transition-ok_iff r a =
    let t = row_of r.trigger in
    let branch =
      if-ok (from_accepts r.from t.from) (evaluate_row r t) (invalid_transition r.from r.trigger) a
        (λ e. cc) in
    rw (evaluate_transition_lem r) (
      λ h.
          let (listed, row) = branch.0 h in
          let (holds, answers) = evaluate_row-ok r t a row in (listed, holds, answers),
      λ h. branch.1 (h.0, ok-evaluate_row r t a h.1 h.2),
    )
