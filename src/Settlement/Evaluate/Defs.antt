-- ===== src/Settlement/Evaluate/Defs.antt =====
-- `evaluateTransition` and the readers of the table (transitions.ts).
use mathlib.Core.List.{flat_map}
use inrsettling.Base.{
  Bool, true, false, Option, none, some, List, [], ◌∷◌, ◌++◌, map, if◌then◌else◌, same,
}
use inrsettling.Base.Lists.{filter, find, includes}
use inrsettling.Settlement.Status.{
  SettlementStatus, SettlementStatus-discrete, StatusEvent, CompanionEvent,
}
use inrsettling.Settlement.Vocabulary.{
  TransitionId, TransitionId-discrete, Trigger, Trigger-discrete, Guard, Stage, Stage-discrete,
  DeferredCompanion, Transition,
}
use inrsettling.Settlement.Table.{transitions}

-- `Partial<Record<Guard, boolean>>`: a guard that the caller did not answer is `none`.
abbrev pub GuardContext : Type 0
GuardContext = Guard → Option Bool

pub record TransitionRequest : Type 0 where
  pub from : Option SettlementStatus
  pub trigger : Trigger
  pub guards : GuardContext
  pub exception_entered_from : Option SettlementStatus

pub record Accepted : Type 0 where
  pub transition : Transition
  pub to : Option SettlementStatus
  pub status_event : Option StatusEvent
  pub required_companions : List CompanionEvent
  pub permitted_companions : List CompanionEvent

pub data TransitionResult : Type 0 where
  ok : Accepted → TransitionResult
  invalid_transition : Option SettlementStatus → Trigger → TransitionResult
  guard_failed : TransitionId → List Guard → TransitionResult
  guard_unanswered : TransitionId → List Guard → TransitionResult
  resume_target_unknown : TransitionId → TransitionResult

-- `from === null ? t.from.length === 0 : t.from.includes(from)`
unfoldable pub from_accepts : Option SettlementStatus → List SettlementStatus → Bool
unfolding SettlementStatus-discrete
from_accepts none [] = true
from_accepts none (_ ∷ _) = false
from_accepts (some s) from = includes SettlementStatus-discrete from s

unfoldable pub is_candidate : Option SettlementStatus → Trigger → Transition → Bool
unfolding from_accepts Trigger-discrete
is_candidate from trigger t =
    if same Trigger-discrete t.trigger trigger then from_accepts from t.from else false

unfoldable pub is_unanswered : GuardContext → Guard → Bool
is_unanswered guards g = elim (guards g) [ none ↦ true | some _ ↦ false ]

unfoldable pub is_failed : GuardContext → Guard → Bool
is_failed guards g = elim (guards g) [ none ↦ false | some true ↦ false | some false ↦ true ]

abbrev pub acceptance : Transition → Option SettlementStatus → Accepted
acceptance t to = record {
  transition = t;
  to = to;
  status_event = t.status_event;
  required_companions = t.companion_events;
  permitted_companions = t.companion_events ++ t.companion_choice;
}

-- The destination: that of the table, but for T22, which resumes to where the exception came from.
unfoldable pub resolve_target : TransitionRequest → Transition → TransitionResult
resolve_target request t =
    if same TransitionId-discrete t.id TransitionId.t22
    then elim request.exception_entered_from [
      | none ↦ resume_target_unknown t.id
      | some target ↦ ok (acceptance t (some target))
    ]
    else ok (acceptance t t.to)

unfoldable pub check_failed : TransitionRequest → Transition → List Guard → TransitionResult
unfolding resolve_target
check_failed request t [] = resolve_target request t
check_failed request t (g ∷ gs) = guard_failed t.id (g ∷ gs)

unfoldable pub check_unanswered : TransitionRequest → Transition → List Guard → TransitionResult
unfolding check_failed is_failed
check_unanswered request t [] = check_failed request t (filter (is_failed request.guards) t.guards)
check_unanswered request t (g ∷ gs) = guard_unanswered t.id (g ∷ gs)

-- What follows once the one candidate row is chosen.
unfoldable pub evaluate_row : TransitionRequest → Transition → TransitionResult
unfolding check_unanswered is_unanswered
evaluate_row request t = check_unanswered request t (filter (is_unanswered request.guards) t.guards)

-- No candidate, or more than one, is an invalid transition.
unfoldable pub choose : TransitionRequest → List Transition → TransitionResult
choose request [] = invalid_transition request.from request.trigger
choose request (t ∷ []) = evaluate_row request t
choose request (_ ∷ _ ∷ _) = invalid_transition request.from request.trigger

unfoldable pub evaluate_transition : TransitionRequest → TransitionResult
evaluate_transition request =
    choose request (filter (is_candidate request.from request.trigger) transitions)

-- The pairs that one row accepts.
unfoldable pub pairs_of : Transition → List (Option SettlementStatus × Trigger)
pairs_of t = elim t.from [
  | [] ↦ (none, t.trigger) ∷ []
  | s ∷ ss ↦ map (λ from. (some from, t.trigger)) (s ∷ ss)
]

unfoldable pub legal_pairs : List (Option SettlementStatus × Trigger)
unfolding pairs_of transitions
legal_pairs = flat_map pairs_of transitions

-- `none` is the error that the source throws.
unfoldable pub transition_by_id : TransitionId → Option Transition
unfolding transitions TransitionId-discrete
transition_by_id id = find (λ t. same TransitionId-discrete t.id id) transitions

unfoldable pub deferred_companions_of : Transition → List (TransitionId × DeferredCompanion)
deferred_companions_of t = map (λ companion. (t.id, companion)) t.deferred_companions

unfoldable pub deferred_companions : List (TransitionId × DeferredCompanion)
unfolding deferred_companions_of transitions
deferred_companions = flat_map deferred_companions_of transitions

unfoldable pub deferred_companions_for : Stage → List (TransitionId × DeferredCompanion)
unfolding deferred_companions Stage-discrete
deferred_companions_for stage =
    filter (λ d. same Stage-discrete d.1.owed_by stage) deferred_companions
