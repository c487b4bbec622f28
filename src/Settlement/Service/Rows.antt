-- ===== src/Settlement/Service/Rows.antt =====
-- What the update of a settlement's row leaves in the table, seen through the row of each id.
use Prim.Native.String.{String}
use text.Mathlib.TextEquality.{eq_iff}
use inrsettling.Base.{
  ◌≡◌, refl, ◌≢◌, Bool, true, false, some, List, [], ◌∷◌, arith, Option-cases, Bool-cases, inl, inr,
  same, subst, sym, ap, ◌∙◌,
}
use inrsettling.Base.Lists.{find}
use inrsettling.Settlement.Status.{SettlementStatus-discrete, is_terminal}
use inrsettling.Settlement.Service.Defs.{
  Settlement, protect_settlement_row, update_rows, has_id, advance, keeps_origin,
}

-- Two rows agree in every column but the version.
abbrev pub SameColumns : {V : Type 0} → Settlement V → Settlement V → Type 0
SameColumns r s =
    (r.id ≡ s.id)
    × (r.status ≡ s.status)
    × (r.customer_status ≡ s.customer_status)
    × (r.exception_entered_from ≡ s.exception_entered_from)
    × (r.open_exception_code ≡ s.open_exception_code)
    × (r.payload ≡ s.payload)

module _ {V : Type 0} where
  pub advance-SameColumns : (old new : Settlement V) → SameColumns (advance old new) new
  unfolding advance
  advance-SameColumns old new =
      elim (Bool-cases (same SettlementStatus-discrete new.status old.status)) [
        | inl y ↦ rw y (refl, refl, refl, refl, refl, refl)
        | inr n ↦ rw n (refl, refl, refl, refl, refl, refl)
      ]

  -- A write that passes the trigger is to a row that is not terminal, keeps the origin of an
  -- exception, and changes the version at most.
  pub protect_settlement_row-some :
      (old new : Settlement V) {r : Settlement V}
      → protect_settlement_row old new ≡ some r
      → (is_terminal old.status ≡ false) × (keeps_origin old new ≡ true) × (advance old new ≡ r)
  unfolding protect_settlement_row
  protect_settlement_row-some old new h = ground arith

  module _ (where_ : Settlement V → Bool) (set : Settlement V → Settlement V) where
    update_rows-nil : {out : List (Settlement V)} → update_rows where_ set [] ≡ some out → out ≡ []
    unfolding update_rows
    update_rows-nil h = ground arith

    update_rows-cons :
        (row : Settlement V) (rows : List (Settlement V)) {out : List (Settlement V)}
        → update_rows where_ set (row ∷ rows) ≡ some out
        → (row' : Settlement V) × (rows' : List (Settlement V)) × (out ≡ row' ∷ rows')
          × (update_rows where_ set rows ≡ some rows')
          × (where_ row ≡ true → protect_settlement_row row (set row) ≡ some row')
          × (where_ row ≡ false → row' ≡ row)
    unfolding update_rows
    update_rows-cons row rows {out} h = elim (Option-cases (update_rows where_ set rows)) [
      | inl e ↦ absurd (ground arith)
      | inr (rows', e) ↦ elim (Bool-cases (where_ row)) [
        | inl y ↦ elim (Option-cases (protect_settlement_row row (set row))) [
          | inl p ↦ absurd (ground arith)
          | inr (row', p) ↦ (row', rows', ground arith, e, λ _. p, λ n. absurd (ground arith))
        ]
        | inr n ↦ (row, rows', ground arith, e, λ y. absurd (ground arith), λ _. refl)
      ]
    ]

  find-cons_yes :
      (p : Settlement V → Bool) (row : Settlement V) (rows : List (Settlement V))
      → p row ≡ true
      → find p (row ∷ rows) ≡ some row
  find-cons_yes p row rows h = rw h refl

  find-cons_no :
      (p : Settlement V → Bool) (row : Settlement V) (rows : List (Settlement V))
      → p row ≡ false
      → find p (row ∷ rows) ≡ find p rows
  find-cons_no p row rows h = rw h refl

  has_id_of_id : (id : String) (a b : Settlement V) → a.id ≡ b.id → has_id id a ≡ has_id id b
  unfolding has_id
  has_id_of_id id a b e = rw e refl

  pub id_of_has_id : (id : String) (row : Settlement V) → has_id id row ≡ true → row.id ≡ id
  unfolding has_id
  id_of_has_id id row h = (eq_iff row.id id).0 h

  has_id_self : (id : String) (row : Settlement V) → row.id ≡ id → has_id id row ≡ true
  unfolding has_id
  has_id_self id row h = (eq_iff row.id id).1 h

  has_id_ne :
      (other id : String) (row : Settlement V) → other ≢ id → row.id ≡ id → has_id other row ≡ false
  has_id_ne other id row ne e = elim (Bool-cases (has_id other row)) [
    | inl y ↦ absurd (ne (sym (id_of_has_id other row y) ∙ e))
    | inr n ↦ n
  ]

  module _ (id : String) (where_ : Settlement V → Bool) (set : Settlement V → Settlement V)
      (sound : (row : Settlement V) → where_ row ≡ true → has_id id row ≡ true)
      (keeps : (row : Settlement V) → (set row).id ≡ row.id) where
    protected_id :
        (row : Settlement V) {r : Settlement V}
        → protect_settlement_row row (set row) ≡ some r
        → r.id ≡ row.id
    protected_id row {r} h =
        let (_, _, e) = protect_settlement_row-some row (set row) h in
        subst (λ x. x.id ≡ row.id) e ((advance-SameColumns row (set row)).0 ∙ keeps row)

    -- The row of the id is written through the trigger.
    pub find-update_rows :
        (rows : List (Settlement V)) {current : Settlement V} {out : List (Settlement V)}
        → find (has_id id) rows ≡ some current
        → where_ current ≡ true
        → update_rows where_ set rows ≡ some out
        → (r : Settlement V) × (protect_settlement_row current (set current) ≡ some r)
          × (find (has_id id) out ≡ some r)
    find-update_rows [] f w u = cc
    find-update_rows (row ∷ rows) {current} {out} f w u =
        let (row', rows', e, u', yes_, no_) = update_rows-cons where_ set row rows u in
        elim (Bool-cases (has_id id row)) [
          | inl y ↦
              let same_row : row ≡ current = ground arith in
              let p = yes_ (subst (λ c. where_ c ≡ true) (sym same_row) w) in
              (
                row',
                subst (λ c. protect_settlement_row c (set c) ≡ some row') same_row p,
                rw e (
                    find-cons_yes (has_id id) row' rows'
                      (has_id_of_id id row' row (protected_id row p) ∙ y)),
              )
          | inr n ↦
              let (r, p, q) = find-update_rows rows (ground arith) w u' in
              let kept : row' ≡ row = no_ (ground (arith, sound row)) in
              (
                r,
                p,
                rw e (
                    find-cons_no (has_id id) row' rows'
                      (has_id_of_id id row' row (ap (λ x. x.id) kept) ∙ n)
                    ∙ q),
              )
        ]

    -- The rows of other ids are as they were.
    pub find-update_rows_ne :
        (other : String) (rows : List (Settlement V)) {out : List (Settlement V)}
        → other ≢ id
        → update_rows where_ set rows ≡ some out
        → find (has_id other) out ≡ find (has_id other) rows
    find-update_rows_ne other [] ne u = rw (update_rows-nil where_ set u) refl
    find-update_rows_ne other (row ∷ rows) ne u =
        let (row', rows', e, u', yes_, no_) = update_rows-cons where_ set row rows u in
        let ih = find-update_rows_ne other rows ne u' in
        elim (Bool-cases (where_ row)) [
          | inl y ↦
              let away : has_id other row ≡ false =
                has_id_ne other id row ne (id_of_has_id id row (sound row y)) in
              rw e (
                find-cons_no (has_id other) row' rows'
                  (has_id_of_id other row' row (protected_id row (yes_ y)) ∙ away)
                ∙ ih
                ∙ sym (find-cons_no (has_id other) row rows away))
          | inr n ↦ rw (e, no_ n) (ground (arith, ih))
        ]
