-- ===== src/Liquidity/Drawdown.antt =====
-- The drawdown machine: packages/domain/src/liquidity/drawdown.ts.
use inrsettling.Base.{Bool, true, false, Option, none, some, List, [], ◌∷◌, same, ◌&&◌}
use inrsettling.Base.Lists.{find, includes}
use inrsettling.Settlement.Vocabulary.{TransitionId}

pub data DrawdownStatus : Type 0 where
  requested confirmed failed unknown : DrawdownStatus

unfoldable pub DrawdownStatus-discrete : Discrete DrawdownStatus
DrawdownStatus-discrete = hlevel

unfoldable pub is_drawdown_terminal : DrawdownStatus → Bool
unfolding DrawdownStatus-discrete
is_drawdown_terminal status =
    includes DrawdownStatus-discrete (DrawdownStatus.confirmed ∷ DrawdownStatus.failed ∷ []) status

pub data DrawdownTrigger : Type 0 where
  request confirmed failed sla_elapsed : DrawdownTrigger
  pull_resolved_confirmed pull_resolved_failed : DrawdownTrigger

unfoldable pub DrawdownTrigger-discrete : Discrete DrawdownTrigger
DrawdownTrigger-discrete = hlevel

pub data DrawdownTransitionId : Type 0 where
  w01 w02 w03 w04 w05 w06 : DrawdownTransitionId

-- The `guard` column is prose and is left out.
pub record DrawdownTransition : Type 0 where
  pub id : DrawdownTransitionId
  pub from : List DrawdownStatus
  pub trigger : DrawdownTrigger
  pub to : DrawdownStatus
  pub settlement_transition : Option TransitionId

abbrev row :
    DrawdownTransitionId
    → List DrawdownStatus
    → DrawdownTrigger
    → DrawdownStatus
    → Option TransitionId
    → DrawdownTransition
row id from trigger to settlement = record {
  id = id;
  from = from;
  trigger = trigger;
  to = to;
  settlement_transition = settlement;
}

unfoldable pub drawdown_transitions : List DrawdownTransition
drawdown_transitions =
    row w01 [] DrawdownTrigger.request requested (some TransitionId.t12)
    ∷ row w02 (requested ∷ []) DrawdownTrigger.confirmed DrawdownStatus.confirmed
        (some TransitionId.t13)
    ∷ row w03 (requested ∷ []) DrawdownTrigger.failed DrawdownStatus.failed (some TransitionId.t14)
    ∷ row w04 (requested ∷ []) DrawdownTrigger.sla_elapsed unknown (some TransitionId.t29)
    ∷ row w05 (unknown ∷ []) DrawdownTrigger.pull_resolved_confirmed DrawdownStatus.confirmed none
    ∷ row w06 (unknown ∷ []) DrawdownTrigger.pull_resolved_failed DrawdownStatus.failed none
    ∷ []

unfoldable pub drawdown_from_accepts : Option DrawdownStatus → List DrawdownStatus → Bool
unfolding DrawdownStatus-discrete
drawdown_from_accepts none [] = true
drawdown_from_accepts none (_ ∷ _) = false
drawdown_from_accepts (some s) from = includes DrawdownStatus-discrete from s

-- `none` is the refusal `invalid_transition`.
unfoldable pub evaluate_drawdown_transition :
    Option DrawdownStatus → DrawdownTrigger → Option (DrawdownTransitionId × DrawdownStatus)
unfolding drawdown_from_accepts drawdown_transitions DrawdownTrigger-discrete
evaluate_drawdown_transition from trigger =
    elim (find
      (λ t. same DrawdownTrigger-discrete t.trigger trigger && drawdown_from_accepts from t.from)
      drawdown_transitions) [ none ↦ none | some t ↦ some (t.id, t.to) ]
