-- ===== src/Settlement/Evaluate/Errors.antt =====
-- What the evaluator answers for guards that are not answered, or are answered with false.
use mathlib.Core.List.{Memᴰ}
use inrsettling.Base.{◌≡◌, refl, ◌≢◌, true, false, some, none, List, [], ◌∷◌, arith}
use inrsettling.Base.Lists.{filter, All, All-map, All-filter, Memᴰ-filter}
use inrsettling.Settlement.Vocabulary.{Guard, Transition}
use inrsettling.Settlement.Evaluate.Defs.{
  GuardContext, TransitionRequest, guard_failed, guard_unanswered, from_accepts, is_unanswered,
  is_failed, evaluate_row, evaluate_transition, check_failed, check_unanswered,
}
use inrsettling.Settlement.Evaluate.Table.{row_of, evaluate_transition_lem}

none_of_unanswered : (c : GuardContext) (g : Guard) → is_unanswered c g ≡ true → c g ≡ none
unfolding is_unanswered
none_of_unanswered c g h = ground arith

false_of_failed : (c : GuardContext) (g : Guard) → is_failed c g ≡ true → c g ≡ some false
unfolding is_failed
false_of_failed c g h = ground arith

filter_unanswered :
    (c : GuardContext) (gs : List Guard)
    → All (λ g. c g ≢ none) gs
    → filter (is_unanswered c) gs ≡ []
unfolding is_unanswered
filter_unanswered c [] h = refl
filter_unanswered c (g ∷ gs) h = ground (arith, filter_unanswered c gs h.1)

check_unanswered-report :
    (r : TransitionRequest) (t : Transition) (gs : List Guard) {g : Guard}
    → Memᴰ g gs
    → check_unanswered r t gs ≡ guard_unanswered t.id gs
unfolding check_unanswered
check_unanswered-report r t (x ∷ xs) m = refl
check_unanswered-report r t [] m = elim m [ ]

check_failed-report :
    (r : TransitionRequest) (t : Transition) (gs : List Guard) {g : Guard}
    → Memᴰ g gs
    → check_failed r t gs ≡ guard_failed t.id gs
unfolding check_failed
check_failed-report r t (x ∷ xs) m = refl
check_failed-report r t [] m = elim m [ ]

-- A guard of the row that the caller did not answer makes the request end as `guard_unanswered`,
-- whatever the other guards say; the report lists it, and lists unanswered guards only.
pub evaluate_transition-unanswered :
    (r : TransitionRequest) (g : Guard)
    → let t = row_of r.trigger in
      from_accepts r.from t.from ≡ true
      → Memᴰ g t.guards
      → r.guards g ≡ none
      → (gs : List Guard) × (evaluate_transition r ≡ guard_unanswered t.id gs)
        × Memᴰ g gs
        × All (λ x. r.guards x ≡ none) gs
unfolding is_unanswered
evaluate_transition-unanswered r g legal m e =
    let t = row_of r.trigger in
    let gs = filter (is_unanswered r.guards) t.guards in
    let reported = Memᴰ-filter (is_unanswered r.guards) g t.guards m (rw (e, is_unanswered)) in
    (
      gs,
      rw (evaluate_transition_lem r, legal)
          (unfold evaluate_row in check_unanswered-report r t gs reported),
      reported,
      All-map gs (none_of_unanswered r.guards) (All-filter (is_unanswered r.guards) t.guards),
    )

-- If every guard of the row is answered and one is false, the request ends as `guard_failed`; the
-- report lists that guard, and lists guards that are false only.
pub evaluate_transition-failed :
    (r : TransitionRequest) (g : Guard)
    → let t = row_of r.trigger in
      from_accepts r.from t.from ≡ true
      → All (λ x. r.guards x ≢ none) t.guards
      → Memᴰ g t.guards
      → r.guards g ≡ some false
      → (gs : List Guard) × (evaluate_transition r ≡ guard_failed t.id gs)
        × Memᴰ g gs
        × All (λ x. r.guards x ≡ some false) gs
unfolding is_failed
evaluate_transition-failed r g legal answered m e =
    let t = row_of r.trigger in
    let gs = filter (is_failed r.guards) t.guards in
    let reported = Memᴰ-filter (is_failed r.guards) g t.guards m (rw (e, is_failed)) in
    (
      gs,
      rw (evaluate_transition_lem r, legal)
          (unfold evaluate_row in
            rw (filter_unanswered r.guards t.guards answered)
              (unfold check_unanswered in check_failed-report r t gs reported)),
      reported,
      All-map gs (false_of_failed r.guards) (All-filter (is_failed r.guards) t.guards),
    )
