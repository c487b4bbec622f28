-- ===== src/Settlement/Service/Finality.antt =====
-- A terminal settlement is never written again, and each call pairs its events with its move.
use Prim.Native.String.{String}
use text.Mathlib.Text.{◌==◌ as str_eq}
use text.Mathlib.TextEquality.{eq_iff}
use inrsettling.Base.{
  ℕ, ◌+◌, ◌≡◌, refl, true, false, some, none, List, [], ◌∷◌, ◌++◌, map, arith, Bool-cases, inl, inr,
  subst, sym, ap, ◌∙◌, ◌↔◌,
}
use inrsettling.Base.Lists.{find}
use inrsettling.Settlement.Status.{is_terminal}
use inrsettling.Settlement.Vocabulary.{TransitionId, TransitionId-discrete}
use inrsettling.Settlement.Evaluate.{Accepted, TransitionRequest}
use inrsettling.Settlement.Evaluate.Table.{row_of}
use inrsettling.Settlement.Evaluate.Laws.{evaluate_transition-ok_iff, Answers}
use inrsettling.Settlement.Service.Defs.{
  Settlement, Store, ApplyInput, Event, EventType, Outcome, has_id, CompanionEmission,
}
use inrsettling.Settlement.Service.Apply.{
  apply_transition, commit, request_of, status_event_of, companion_event_of,
}
use inrsettling.Settlement.Service.Outcomes.{Applied, apply_transition_cases, is_ok}
use inrsettling.Settlement.Service.Lifecycle.{alive_of_row, paired_row}
use inrsettling.Settlement.Service.Writes.{write_row-find_ne}
use inrsettling.Settlement.Service.History.{run, commit_store}

module _ {V : Type 0} (store : Store V) (input : ApplyInput V) where
  Applied-alive :
      (c : Applied store input (apply_transition store input))
      → is_terminal c.current.status ≡ false
  unfolding request_of
  Applied-alive c =
      alive_of_row input.trigger c.current.status
        ((evaluate_transition-ok_iff (request_of input c.current) c.accepted).0 c.evaluated).0

  apply_transition-terminal :
      (id : String) {row : Settlement V}
      → find (has_id id) store.settlements ≡ some row
      → is_terminal row.status ≡ true
      → find (has_id id) (apply_transition store input).0.settlements ≡ some row
  apply_transition-terminal id {row} f done = elim (apply_transition_cases store input) [
    | inl refused ↦ rw refused.0 f
    | inr c ↦ elim (Bool-cases (str_eq id input.settlement_id)) [
      | inl y ↦
          let e = (eq_iff id input.settlement_id).0 y in
          let found : find (has_id id) store.settlements ≡ some c.current =
            subst (λ x. find (has_id x) store.settlements ≡ some c.current) (sym e) c.found in
          let same_row : c.current ≡ row = ground arith in
          absurd (cc (subst (λ x. is_terminal x.status ≡ false) same_row (Applied-alive c), done))
      | inr n ↦
          ap (λ x. find (has_id id) x.0.settlements) c.committed
          ∙ ap (find (has_id id)) (commit_store store input c.current c.accepted c.rows).0
          ∙ write_row-find_ne store input c.current c.accepted.to id
              (λ e. cc ((eq_iff id input.settlement_id).1 e, n)) c.written
          ∙ f
    ]
  ]

module _ {V : Type 0} where
  -- Once a settlement is settled, failed or cancelled, no calls of applyTransition change any column of
  -- its row, whatever their triggers, guards and patches, and whatever settlements they name (INV-38).
  pub terminal_frozen :
      (id : String) (store : Store V) (inputs : List (ApplyInput V)) {row : Settlement V}
      → find (has_id id) store.settlements ≡ some row
      → is_terminal row.status ≡ true
      → find (has_id id) (run store inputs).settlements ≡ some row
  unfolding run
  terminal_frozen id store [] f done = f
  terminal_frozen id store (input ∷ inputs) f done =
      terminal_frozen id (apply_transition store input).0 inputs
        (apply_transition-terminal store input id f done) done

  -- How many status events a list of events holds.
  abbrev pub status_events : List (Event V) → ℕ
  status_events [] = 0
  status_events (e ∷ es) =
      let rest = status_events es in
      elim e.type [ EventType.status _ ↦ rest + 1 | EventType.companion _ ↦ rest ]

-- How many moves of the machine an outcome reports.
abbrev pub moves : Outcome → ℕ
moves (Outcome.ok _ _ (some _) _) = 1
moves _ = 0

moves-refused : (o : Outcome) → is_ok o ≡ false → moves o ≡ 0
moves-refused o h = ground arith

module _ {V : Type 0} where
  status_events-companions :
      (input : ApplyInput V) (cs : List (CompanionEmission V))
      → status_events (map (companion_event_of input) cs) ≡ 0
  unfolding companion_event_of
  status_events-companions input [] = refl
  status_events-companions input (c ∷ cs) = status_events-companions input cs

  status_events-append :
      (xs ys : List (Event V)) → status_events (xs ++ ys) ≡ status_events xs + status_events ys
  status_events-append [] ys = omega arith
  status_events-append (x ∷ xs) ys = ground (arith, status_events-append xs ys)

  status_events-commit :
      (store : Store V) (input : ApplyInput V) (current : Settlement V) (a : Accepted)
      (rows : List (Settlement V))
      → (a.status_event ≡ none) ↔ (a.to ≡ none)
      → let s = commit store input current a (some rows) in
        status_events s.0.events ≡ status_events store.events + moves s.1
  unfolding commit status_event_of
  status_events-commit store input current a rows paired =
      let companions = map (companion_event_of input) input.companions in
      ground (
        arith,
        status_events-append store.events
            (status_event_of input current a a.status_event ++ companions),
        status_events-companions input input.companions,
      )

Answers-paired :
    (r : TransitionRequest) (a : Accepted)
    → Answers r (row_of r.trigger) a
    → (a.status_event ≡ none) ↔ (a.to ≡ none)
Answers-paired r a h =
    let (moved, resumed) = paired_row r.trigger in
    elim (TransitionId-discrete (row_of r.trigger).id TransitionId.t22) [
      | yes y ↦ (λ e. absurd (resumed y (sym h.event ∙ e)), λ e. absurd ((h.resumed y).1 e))
      | no n ↦ (
        λ e. h.moved n ∙ (moved n).0 (sym h.event ∙ e),
        λ e. h.event ∙ (moved n).1 (sym (h.moved n) ∙ e),
      )
    ]

-- Each call writes exactly one status event if it reports a move of the status, and none if it is
-- refused or only annotates the settlement (INV-32).
pub apply_transition_pairing :
    {V : Type 0} (store : Store V) (input : ApplyInput V)
    → status_events (apply_transition store input).0.events
      ≡ status_events store.events + moves (apply_transition store input).1
unfolding request_of
apply_transition_pairing store input = elim (apply_transition_cases store input) [
  | inl refused ↦
      omega (arith, ap (λ s. status_events s.events) refused.0, moves-refused _ refused.1)
  | inr c ↦
      let (_, _, answers) =
        (evaluate_transition-ok_iff (request_of input c.current) c.accepted).0 c.evaluated in
      subst (λ x. status_events x.0.events ≡ status_events store.events + moves x.1)
        (sym c.committed)
        (status_events-commit store input c.current c.accepted c.rows
          (Answers-paired (request_of input c.current) c.accepted answers))
]
