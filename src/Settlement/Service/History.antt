-- ===== src/Settlement/Service/History.antt =====
-- What holds of a settlement after any calls of the transition service.
use Prim.Native.String.{String}
use text.Mathlib.Text.{◌==◌ as str_eq}
use text.Mathlib.TextEquality.{eq_iff}
use mathlib.Core.List.{append-nil}
use inrsettling.Base.{
  ◌≡◌, refl, ◌≢◌, false, some, List, [], ◌∷◌, ◌++◌, arith, Bool-cases, inl, inr, subst, sym, ap,
  ◌∙◌,
}
use inrsettling.Base.Lists.{find}
use inrsettling.Settlement.Evaluate.{Accepted}
use inrsettling.Settlement.Service.Defs.{Settlement, Store, ApplyInput, Audit, has_id}
use inrsettling.Settlement.Service.Apply.{apply_transition, commit, audit_of}
use inrsettling.Settlement.Service.Outcomes.{Applied, apply_transition_cases}
use inrsettling.Settlement.Service.Writes.{write_row-find, write_row-find_ne}
use inrsettling.Settlement.Service.Trail.{trail, trail-append, Traced, Traced-accepted}

str_ne : (a b : String) → a ≢ b → str_eq b a ≡ false
str_ne a b ne = elim (Bool-cases (str_eq b a)) [
  | inl y ↦ absurd (ne (sym ((eq_iff b a).0 y)))
  | inr n ↦ n
]

module _ {V : Type 0} where
  -- The calls that reach the store, one transaction after another: the row lock orders them.
  unfoldable pub run : Store V → List (ApplyInput V) → Store V
  run store [] = store
  run store (input ∷ inputs) = run (apply_transition store input).0 inputs

  pub commit_store :
      (store : Store V) (input : ApplyInput V) (current : Settlement V) (a : Accepted)
      (rows : List (Settlement V))
      → let s = (commit store input current a (some rows)).0 in
        (s.settlements ≡ rows) × (s.audit_log ≡ store.audit_log ++ audit_of input current a ∷ [])
  unfolding commit
  commit_store store input current a rows = (refl, refl)

  trail-audit_self :
      (input : ApplyInput V) (current : Settlement V) (a : Accepted) (log : List Audit)
      → trail input.settlement_id (log ++ audit_of input current a ∷ [])
        ≡ trail input.settlement_id log ++ a.transition.id ∷ []
  unfolding audit_of
  trail-audit_self input current a log =
      rw
        (
          trail-append input.settlement_id log _,
          (eq_iff input.settlement_id input.settlement_id).1 refl,
        )
        refl

  trail-audit_ne :
      (id : String) (input : ApplyInput V) (current : Settlement V) (a : Accepted)
      (log : List Audit)
      → id ≢ input.settlement_id
      → trail id (log ++ audit_of input current a ∷ []) ≡ trail id log
  unfolding audit_of
  trail-audit_ne id input current a log ne =
      rw (trail-append id log _, str_ne id input.settlement_id ne) (append-nil _)

  -- The row of the id, whatever it is, has its history in the audit log.
  abbrev pub Tracked : String → Store V → Type 0
  Tracked id store =
      (row : Settlement V)
      → find (has_id id) store.settlements ≡ some row
      → Traced row (trail id store.audit_log)

  module _ (store : Store V) (input : ApplyInput V) where
    committed_self :
        (c : Applied store input (apply_transition store input))
        → Tracked input.settlement_id store
        → Tracked input.settlement_id (commit store input c.current c.accepted (some c.rows)).0
    unfolding commit
    committed_self c h row f =
        let (r, g, w) = write_row-find store input c.current c.found c.accepted.to c.written in
        let next = Traced-accepted store input c.accepted (h c.current c.found) c.evaluated w in
        let same_row : r ≡ row = ground arith in
        subst (λ t. Traced row t)
          (sym (trail-audit_self input c.current c.accepted store.audit_log))
          (subst
            (λ x.
              Traced x (trail input.settlement_id store.audit_log ++ c.accepted.transition.id ∷ []))
            same_row next)

    committed_ne :
        (id : String) (c : Applied store input (apply_transition store input))
        → id ≢ input.settlement_id
        → Tracked id store
        → Tracked id (commit store input c.current c.accepted (some c.rows)).0
    unfolding commit
    committed_ne id c ne h row f =
        let there = write_row-find_ne store input c.current c.accepted.to id ne c.written in
        subst (λ t. Traced row t)
          (sym (trail-audit_ne id input c.current c.accepted store.audit_log ne))
          (h row (sym there ∙ f))

    committed-Tracked :
        (id : String) (c : Applied store input (apply_transition store input))
        → Tracked id store
        → Tracked id (commit store input c.current c.accepted (some c.rows)).0
    committed-Tracked id c h = elim (Bool-cases (str_eq id input.settlement_id)) [
      | inl y ↦
          let e = (eq_iff id input.settlement_id).0 y in
          subst (λ x. Tracked x (commit store input c.current c.accepted (some c.rows)).0) (sym e)
            (committed_self c (subst (λ x. Tracked x store) e h))
      | inr n ↦ committed_ne id c (λ e. cc ((eq_iff id input.settlement_id).1 e, n)) h
    ]

  pub apply_transition-Tracked :
      (id : String) (store : Store V) (input : ApplyInput V)
      → Tracked id store
      → Tracked id (apply_transition store input).0
  apply_transition-Tracked id store input h = elim (apply_transition_cases store input) [
    | inl refused ↦ subst (Tracked id) (sym refused.0) h
    | inr c ↦
        subst (Tracked id) (sym (ap (λ x. x.0) c.committed)) (committed-Tracked store input id c h)
  ]
