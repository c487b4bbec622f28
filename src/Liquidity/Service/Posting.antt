-- ===== src/Liquidity/Service/Posting.antt =====
-- Every movement keeps a facility row and its ledger entries together.
use Prim.Native.String.{String}
use text.Mathlib.Text.{◌==◌ as str_eq}
use text.Mathlib.TextEquality.{eq_iff}
use inrsettling.Base.{
  ◌≡◌, ◌≢◌, refl, sym, ap, ◌∙◌, Bool, true, false, Bool-cases, Option-cases, inl, inr, Option, none,
  some, List, [], ◌∷◌, ◌++◌,
}
use inrsettling.Base.Lists.{find}
use inrsettling.Base.Int.{ℤ, ◌+ℤ◌}
use inrsettling.Base.Result.{ok}
use inrsettling.Money.Amount.{Money, money}
use inrsettling.Liquidity.Facility.{
  LedgerAccount, PairedMovement, LedgerEntry, ledger_pair_for, project_position,
}
use inrsettling.Liquidity.Service.Defs.{
  Facility, Store, to_position, delta, MovementIds, move_row, movement_entries, post_movement,
}
use inrsettling.Liquidity.Service.Facilities.{entries_of}
use inrsettling.Liquidity.Service.Ledger.{
  facility_at, IsProjected, filter-append, find-map, project_onto-append, entries_of-movement,
  project_movement,
}
use mathlib.Core.Option.{some-injective}
use mathlib.Core.Option

pub find-passes :
    {A : Type 0} (p : A → Bool) (xs : List A) {a : A} → find p xs ≡ some a → p a ≡ true
find-passes p [] h = cc
find-passes p (x ∷ xs) {a} h = elim (Bool-cases (p x)) [
  | inl y ↦
      let e : ◌≡◌ {A = Option _} (some x) (some a) = rw y at h in
      ap p (sym (some-injective _ _ e)) ∙ y
  | inr n ↦ find-passes p xs (rw n at h)
]

-- The change that a movement makes to one row.
abbrev pub moved_row : String → PairedMovement → Money → Facility → Facility
moved_row id movement amount =
    let pair = ledger_pair_for movement in
    move_row id (delta pair amount.minor_units LedgerAccount.drawn)
      (delta pair amount.minor_units LedgerAccount.reserved)

move_row-keeps :
    (id other : String) (d r : ℤ) (f : Facility)
    → str_eq (move_row id d r f).id other ≡ str_eq f.id other
unfolding move_row
move_row-keeps id other d r f = elim (Bool-cases (str_eq f.id id)) [
  | inl y ↦ rw y refl
  | inr n ↦ rw n refl
]

-- After a movement a lookup finds the row that it found before, moved.
pub post_movement-facility_at :
    (store : Store) (ids : MovementIds) (facility_id : String) (movement : PairedMovement)
    (amount : Money) (id : String)
    → facility_at (post_movement store ids facility_id movement amount) id
      ≡ Option.map (moved_row facility_id movement amount) (facility_at store id)
unfolding post_movement
post_movement-facility_at store ids facility_id movement amount id =
    find-map (λ f. str_eq f.id id) (moved_row facility_id movement amount) store.facilities
      (λ f. move_row-keeps facility_id id _ _ f)

-- A row of the facility itself, and a row of another.
move_row-hit :
    (id : String) (d r : ℤ) (f : Facility)
    → str_eq f.id id ≡ true
    → move_row id d r f
      ≡ record f { drawn_minor = f.drawn_minor +ℤ d; reserved_minor = f.reserved_minor +ℤ r }
unfolding move_row
move_row-hit id d r f h = rw h refl

move_row-miss :
    (id : String) (d r : ℤ) (f : Facility) → str_eq f.id id ≡ false → move_row id d r f ≡ f
unfolding move_row
move_row-miss id d r f h = rw h refl

entries_of-append :
    (id : String) (xs ys : List LedgerEntry)
    → entries_of id (xs ++ ys) ≡ entries_of id xs ++ entries_of id ys
unfolding entries_of
entries_of-append id xs ys = filter-append (λ e. str_eq e.facility_id id) xs ys

pub IsRowProjected : String → Facility → List LedgerEntry → Type 0
IsRowProjected id f ledger =
    project_position f.currency (money f.currency f.limit_minor) (entries_of id ledger)
    ≡ ok (to_position f)

append-nil : (xs : List LedgerEntry) → xs ++ [] ≡ xs
append-nil [] = refl
append-nil (x ∷ xs) = ap (λ ys. x ∷ ys) (append-nil xs)

other_id : (a b c : String) → str_eq a b ≡ true → str_eq c b ≡ false → str_eq a c ≡ false
other_id a b c h n = elim (Bool-cases (str_eq a c)) [
  | inl y ↦ let e = sym ((eq_iff a c).0 y) ∙ (eq_iff a b).0 h in let t = (eq_iff c b).1 e in cc
  | inr k ↦ k
]

row_projected :
    (store : Store) (ids : MovementIds) (facility_id : String) (movement : PairedMovement)
    (amount : Money) (id : String) (f : Facility)
    → str_eq f.id id ≡ true
    → (facility_id ≡ id → amount.currency ≡ f.currency)
    → IsRowProjected id f store.ledger
    → IsRowProjected id
        (moved_row facility_id movement amount f)
        (store.ledger ++ movement_entries ids facility_id movement amount)
unfolding IsRowProjected project_position to_position
row_projected store ids facility_id movement amount id f here currency h =
    rw
      (
        entries_of-append id store.ledger (movement_entries ids facility_id movement amount),
        entries_of-movement id facility_id ids movement amount,
      )
      (elim (Bool-cases (str_eq facility_id id)) [
        | inl y ↦ rw y (
            let same_id = (eq_iff facility_id id).0 y in
            rw (move_row-hit facility_id _ _ f (ap (str_eq f.id) same_id ∙ here)) (
              project_onto-append f.currency (money f.currency f.limit_minor)
                (entries_of id store.ledger) (movement_entries ids facility_id movement amount) _
                (to_position f) h
              ∙ project_movement f.currency (money f.currency f.limit_minor) f.drawn_minor
                  f.reserved_minor facility_id ids movement amount (currency same_id)))
        | inr n ↦ rw n (
            rw (move_row-miss facility_id _ _ f (other_id f.id id facility_id here n))
              (rw (append-nil (entries_of id store.ledger)) h))
      ])

-- An amount is in the currency of a facility, where there is one with the id.
unfoldable pub InCurrencyOf : Store → String → Money → Type 0
InCurrencyOf store facility_id amount =
    (f : Facility) → facility_at store facility_id ≡ some f → amount.currency ≡ f.currency

none_some : {f : Facility} → ◌≢◌ {A = Option Facility} none (some f)
none_some h = cc

-- What a lookup finds after a movement it found before.
pub post_movement-found :
    (store : Store) (ids : MovementIds) (facility_id : String) (movement : PairedMovement)
    (amount : Money) (id : String) {f' : Facility}
    → facility_at (post_movement store ids facility_id movement amount) id ≡ some f'
    → (f : Facility) × (facility_at store id ≡ some f)
      × (moved_row facility_id movement amount f ≡ f')
post_movement-found store ids facility_id movement amount id {f'} h =
    let found = sym (post_movement-facility_at store ids facility_id movement amount id) ∙ h in
    elim (Option-cases (facility_at store id)) [
      | inl e ↦
          absurd
            (none_some (sym (ap (Option.map (moved_row facility_id movement amount)) e) ∙ found))
      | inr (f, e) ↦ (
        f,
        e,
        some-injective _ _
            (sym (ap (Option.map (moved_row facility_id movement amount)) e) ∙ found),
      )
    ]

-- A movement in the currency of its facility keeps every row at the projection of its entries.
pub post_movement-IsProjected :
    (store : Store) (ids : MovementIds) (facility_id : String) (movement : PairedMovement)
    (amount : Money)
    → IsProjected store
    → InCurrencyOf store facility_id amount
    → IsProjected (post_movement store ids facility_id movement amount)
unfolding IsProjected IsRowProjected InCurrencyOf post_movement
post_movement-IsProjected store ids facility_id movement amount projected currency id f' h =
    let (f, e, same_row) = post_movement-found store ids facility_id movement amount id h in
    rw (← same_row) (
      row_projected store ids facility_id movement amount id f
        (find-passes (λ x. str_eq x.id id) store.facilities e)
        (λ same_id. currency f (ap (facility_at store) same_id ∙ e)) (projected id f e))

pub moved_row-currency :
    (id : String) (movement : PairedMovement) (amount : Money) (f : Facility)
    → (moved_row id movement amount f).currency ≡ f.currency
unfolding move_row
moved_row-currency id movement amount f = elim (Bool-cases (str_eq f.id id)) [
  | inl y ↦ rw y refl
  | inr n ↦ rw n refl
]
