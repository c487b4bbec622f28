-- ===== src/Settlement/Service/Trail.antt =====
-- The audit trail of one settlement, and the invariant that each call of the service keeps.
use Prim.Native.String.{String}
use text.Mathlib.Text.{◌==◌ as str_eq}
use mathlib.Core.List.{Memᴰ}
use inrsettling.Base.{
  ◌≡◌, refl, ◌≢◌, true, Option, some, none, List, [], ◌∷◌, ◌++◌, if◌then◌else◌, Bool-cases, inl,
  inr, subst, sym, ap, ◌∙◌,
}
use inrsettling.Base.Lists.{All, All-map, All-subset, Memᴰ-append_left, Memᴰ-append_right}
use inrsettling.Settlement.Status.{SettlementStatus, SettlementStatus-discrete}
use inrsettling.Settlement.Vocabulary.{TransitionId, TransitionId-discrete, Trigger}
use inrsettling.Settlement.Evaluate.{from_accepts, Accepted, TransitionResult, evaluate_transition}
use inrsettling.Settlement.Evaluate.Table.{row_of}
use inrsettling.Settlement.Evaluate.Laws.{evaluate_transition-ok_iff}
use inrsettling.Settlement.Service.Defs.{Settlement, Store, ApplyInput, Audit}
use inrsettling.Settlement.Service.Apply.{request_of}
use inrsettling.Settlement.Service.Lifecycle.{
  needs, extends, extends_always, exception_once, resumes_exception,
}
use inrsettling.Settlement.Service.Writes.{Written, origin_after-exception}

abbrev pub Resumable : SettlementStatus → Option SettlementStatus → Type 0
Resumable s origin =
    s ≡ SettlementStatus.exception
    → (x : SettlementStatus) × (origin ≡ some x) × (x ≢ SettlementStatus.exception)

-- The transitions that the audit log records for a settlement.
abbrev pub trail : String → List Audit → List TransitionId
trail id [] = []
trail id (entry ∷ log) =
    let rest = trail id log in if str_eq entry.subject_id id then entry.transition ∷ rest else rest

pub trail-append :
    (id : String) (xs ys : List Audit) → trail id (xs ++ ys) ≡ trail id xs ++ trail id ys
trail-append id [] ys = refl
trail-append id (x ∷ xs) ys = elim (Bool-cases (str_eq x.subject_id id)) [
  | inl y ↦ rw (y, trail-append id xs ys)
  | inr n ↦ rw (n, trail-append id xs ys)
]

-- Where a settlement is on its way: an open exception stands where it came from.
abbrev pub position : SettlementStatus → Option SettlementStatus → SettlementStatus
position SettlementStatus.exception none = SettlementStatus.exception
position SettlementStatus.exception (some origin) = origin
position s _ = s

abbrev pub Covered : List TransitionId → SettlementStatus → Type 0
Covered t s = All (λ i. Memᴰ i t) (needs s)

module _ {V : Type 0} where
  pub record Traced (row : Settlement V) (t : List TransitionId) : Type 0 where
    pub covered : Covered t (position row.status row.exception_entered_from)
    pub resumable :
        row.status ≡ SettlementStatus.exception
        → (s : SettlementStatus) × (row.exception_entered_from ≡ some s)
          × (s ≢ SettlementStatus.exception)

Covered-grows :
    (t : List TransitionId) (i : TransitionId) (s : SettlementStatus)
    → Covered t s
    → Covered (t ++ i ∷ []) s
Covered-grows t i s h = All-map (needs s) (λ x m. Memᴰ-append_left t (i ∷ []) m) h

-- One move along the table.
Covered-extends :
    (trigger : Trigger) (s to : SettlementStatus) (t : List TransitionId)
    → from_accepts (some s) (row_of trigger).from ≡ true
    → (row_of trigger).to ≡ some to
    → Covered t s
    → Covered (t ++ (row_of trigger).id ∷ []) to
unfolding extends
Covered-extends trigger s to t legal e h =
    let i = (row_of trigger).id in
    All-subset (λ x. Memᴰ x (t ++ i ∷ [])) TransitionId-discrete (i ∷ needs s) (needs to)
      (rw (legal, e) at (extends_always trigger s))
      (Memᴰ-append_right t (i ∷ []) (Memᴰ.head refl), Covered-grows t i s h)

position_ne :
    (s : SettlementStatus) (e : Option SettlementStatus)
    → s ≢ SettlementStatus.exception
    → position s e ≡ s
position_ne SettlementStatus.exception e h = absurd (h refl)
position_ne SettlementStatus.draft e h = refl
position_ne _ e h = refl

module _ {V : Type 0} where
  -- What stands behind the status itself: nothing is asked of an exception.
  Traced-status :
      {current : Settlement V} {t : List TransitionId} → Traced current t → Covered t current.status
  Traced-status {current} {t} traced =
      elim (SettlementStatus-discrete current.status SettlementStatus.exception) [
        | yes e ↦ rw e tt
        | no ne ↦
            subst (Covered t) (position_ne current.status current.exception_entered_from ne)
              traced.covered
      ]

  Traced-of :
      (r : Settlement V) {t : List TransitionId} {s : SettlementStatus}
      {origin : Option SettlementStatus}
      → r.status ≡ s
      → r.exception_entered_from ≡ origin
      → Covered t (position s origin)
      → Resumable s origin
      → Traced r t
  Traced-of r {t} {s} {origin} e f c k = record {
    covered =
        subst (λ x. Covered t (position x r.exception_entered_from)) (sym e)
          (subst (λ y. Covered t (position s y)) (sym f) c);
    resumable = λ h. let (x, p, q) = k (sym e ∙ h) in (x, f ∙ p, q);
  }

module _ {V : Type 0} (store : Store V) (input : ApplyInput V) {current r : Settlement V}
    {t : List TransitionId} (traced : Traced current t)
    (legal : from_accepts (some current.status) (row_of input.trigger).from ≡ true) where
  Traced-moved :
      (to : SettlementStatus)
      → (row_of input.trigger).to ≡ some to
      → Written store input current (some to) r
      → Traced r (t ++ (row_of input.trigger).id ∷ [])
  Traced-moved to e w = elim (SettlementStatus-discrete to SettlementStatus.exception) [
    | yes x ↦
        Traced-of r (w.status ∙ x) (w.origin ∙ origin_after-exception to current x)
          (Covered-grows t (row_of input.trigger).id current.status (Traced-status traced))
          (λ _. (
            current.status,
            refl,
            exception_once input.trigger current.status legal (e ∙ ap some x),
          ))
    | no ne ↦
        Traced-of r w.status refl
          (subst (Covered (t ++ (row_of input.trigger).id ∷ []))
            (sym (position_ne to r.exception_entered_from ne))
            (Covered-extends input.trigger current.status to t legal e (Traced-status traced)))
          (λ h. absurd (ne h))
  ]

  Traced-annotated :
      (i : TransitionId) → Written store input current none r → Traced r (t ++ i ∷ [])
  Traced-annotated i w =
      Traced-of r w.status w.origin
        (Covered-grows t i (position current.status current.exception_entered_from) traced.covered)
        traced.resumable

  Traced-resumed :
      (to : Option SettlementStatus)
      → (row_of input.trigger).id ≡ TransitionId.t22
      → to ≡ current.exception_entered_from
      → Written store input current to r
      → Traced r (t ++ (row_of input.trigger).id ∷ [])
  Traced-resumed to e f w =
      let in_exception = resumes_exception input.trigger current.status legal e in
      let (x, origin, ne) = traced.resumable in_exception in
      let w' = subst (λ y. Written store input current y r) (f ∙ origin) w in
      let here = subst (λ y. Covered t (position current.status y)) origin traced.covered in
      let there = subst (λ y. Covered t (position y (some x))) in_exception here in
      Traced-of r w'.status refl
        (subst (Covered (t ++ (row_of input.trigger).id ∷ []))
          (sym (position_ne x r.exception_entered_from ne))
          (Covered-grows t (row_of input.trigger).id x there))
        (λ h. absurd (ne h))

  Traced-to :
      (to : Option SettlementStatus)
      → (row_of input.trigger).to ≡ to
      → Written store input current to r
      → Traced r (t ++ (row_of input.trigger).id ∷ [])
  Traced-to none e w = Traced-annotated (row_of input.trigger).id w
  Traced-to (some to) e w = Traced-moved to e w

-- A call that the machine accepts keeps the invariant, with its transition at the end of the trail.
pub Traced-accepted :
    {V : Type 0} (store : Store V) (input : ApplyInput V) {current r : Settlement V}
    {t : List TransitionId} (a : Accepted)
    → Traced current t
    → evaluate_transition (request_of input current) ≡ TransitionResult.ok a
    → Written store input current a.to r
    → Traced r (t ++ a.transition.id ∷ [])
unfolding request_of
Traced-accepted store input {current} {r} {t} a traced e w =
    let (legal, _, answers) = (evaluate_transition-ok_iff (request_of input current) a).0 e in
    let id = (row_of input.trigger).id in
    subst (λ x. Traced r (t ++ x.id ∷ [])) (sym answers.row)
      (elim (TransitionId-discrete id TransitionId.t22) [
        | yes y ↦ Traced-resumed store input traced legal a.to y (answers.resumed y).0 w
        | no n ↦ Traced-to store input traced legal a.to (sym (answers.moved n)) w
      ])
