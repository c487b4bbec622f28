-- ===== src/Liquidity/Service/Ledger.antt =====
-- INV-23: the cached figures of a facility row are those that its ledger entries add up to.
use Prim.Native.String.{String}
use text.Mathlib.Text.{◌==◌ as str_eq}
use inrsettling.Base.{
  ◌≡◌, ◌≢◌, refl, ap, Bool, true, Bool-cases, inl, inr, Option, some, List, [], ◌∷◌, ◌++◌, map,
  if◌then◌else◌, same_iff, arith,
}
use inrsettling.Base.Lists.{find, filter}
use inrsettling.Base.Int.{ℤ, pos, neg, ◌+ℤ◌, ◌-ℤ◌}
use inrsettling.Base.Result.{Result, ok, err}
use inrsettling.Money.Amount.{Currency, Currency-discrete, same_currency, Money, money}
use inrsettling.Liquidity.Facility.{
  FacilityPosition, LiquidityError, LedgerAccount, LedgerDirection, PairedMovement, LedgerEntry,
  ledger_pair_for, project_onto, project_position, signed, count_entry,
}
use inrsettling.Liquidity.Service.Defs.{
  Facility, Store, to_position, delta, MovementIds, movement_entries,
}
use inrsettling.Liquidity.Service.Facilities.{entries_of}
use mathlib.Core.Option

-- The first facility row with an id: ids are the primary key.
abbrev pub facility_at : Store → String → Option Facility
facility_at store id = find (λ f. str_eq f.id id) store.facilities

-- Every row that a lookup meets is the projection of its entries.
unfoldable pub IsProjected : Store → Type 0
IsProjected store =
    (id : String) (f : Facility)
    → facility_at store id ≡ some f
    → project_position f.currency (money f.currency f.limit_minor) (entries_of id store.ledger)
      ≡ ok (to_position f)

pub filter-append :
    {A : Type 0} (p : A → Bool) (xs ys : List A) → filter p (xs ++ ys) ≡ filter p xs ++ filter p ys
filter-append p [] ys = refl
filter-append p (x ∷ xs) ys = elim (Bool-cases (p x)) [
  | inl y ↦ rw y (ap (λ zs. x ∷ zs) (filter-append p xs ys))
  | inr n ↦ rw n (filter-append p xs ys)
]

-- A change of the rows that keeps what the test reads.
pub find-map :
    {A : Type 0} (p : A → Bool) (g : A → A) (xs : List A)
    → ((a : A) → p (g a) ≡ p a)
    → find p (map g xs) ≡ Option.map g (find p xs)
find-map p g [] keeps = refl
find-map p g (x ∷ xs) keeps = elim (Bool-cases (p x)) [
  | inl y ↦ rw (keeps x, y) refl
  | inr n ↦ rw (keeps x, n) (find-map p g xs keeps)
]

ok_injective :
    {p q : FacilityPosition}
    → ◌≡◌ {A = Result LiquidityError FacilityPosition} (ok p) (ok q)
    → p ≡ q
ok_injective h = cc

err_ok :
    {e : LiquidityError} {p : FacilityPosition}
    → ◌≢◌ {A = Result LiquidityError FacilityPosition} (err e) (ok p)
err_ok h = cc

pub project_onto-append :
    (currency : Currency) (limit : Money) (xs ys : List LedgerEntry) (sums : ℤ × ℤ)
    (p : FacilityPosition)
    → project_onto currency limit sums xs ≡ ok p
    → project_onto currency limit sums (xs ++ ys)
      ≡ project_onto currency limit (p.drawn.minor_units, p.reserved.minor_units) ys
unfolding project_onto
project_onto-append currency limit [] ys sums p h =
    ap
      (λ (q : FacilityPosition).
        project_onto currency limit (q.drawn.minor_units, q.reserved.minor_units) ys)
      (ok_injective h)
project_onto-append currency limit (x ∷ xs) ys sums p h =
    elim (Bool-cases (same_currency x.currency currency)) [
      | inl y ↦ rw y (
          project_onto-append currency limit xs ys
            (count_entry x.account (signed x.direction x.minor_units) sums.0 sums.1) p (rw y at h))
      | inr n ↦ absurd (err_ok (rw n at h))
    ]

same_currency_refl : (c d : Currency) → c ≡ d → same_currency c d ≡ true
unfolding Currency-discrete
same_currency_refl c d e = (same_iff Currency-discrete c d).1 e

both : {a b c d : ℤ} → a ≡ c → b ≡ d → ◌≡◌ {A = ℤ × ℤ} (a, b) (c, d)
both h k = cc

add_nothing : (a : ℤ) → a ≡ a +ℤ (pos 0 -ℤ pos 0)
unfolding ◌+ℤ◌ ◌-ℤ◌
add_nothing a = ground arith

add_debit : (a b : ℤ) → a +ℤ b ≡ a +ℤ (b -ℤ pos 0)
unfolding ◌+ℤ◌ ◌-ℤ◌
add_debit a b = ground arith

add_credit : (a b : ℤ) → a +ℤ neg b ≡ a +ℤ (pos 0 -ℤ b)
unfolding ◌+ℤ◌ ◌-ℤ◌ neg
add_credit a b = ground arith

-- The two entries of a movement move the sums by its deltas.
pair_sums :
    (movement : PairedMovement) (amount drawn_sum reserved_sum : ℤ)
    → let pair = ledger_pair_for movement in
      let debited =
        count_entry pair.0 (signed LedgerDirection.debit amount) drawn_sum reserved_sum in
      count_entry pair.1 (signed LedgerDirection.credit amount) debited.0 debited.1 ≡ (
        drawn_sum +ℤ delta pair amount LedgerAccount.drawn,
        reserved_sum +ℤ delta pair amount LedgerAccount.reserved,
      )
unfolding ledger_pair_for count_entry signed delta
pair_sums PairedMovement.reservation_created a d r = both (add_nothing d) (add_debit r a)
pair_sums PairedMovement.reservation_released a d r = both (add_nothing d) (add_credit r a)
pair_sums PairedMovement.reservation_expired a d r = both (add_nothing d) (add_credit r a)
pair_sums PairedMovement.reservation_consumed a d r = both (add_debit d a) (add_credit r a)
pair_sums PairedMovement.repayment_confirmed a d r = both (add_credit d a) (add_nothing r)

-- The entries of a movement are those of its facility and of no other.
pub entries_of-movement :
    (id facility_id : String) (ids : MovementIds) (movement : PairedMovement) (amount : Money)
    → entries_of id (movement_entries ids facility_id movement amount)
      ≡ (if str_eq facility_id id then movement_entries ids facility_id movement amount else [])
unfolding entries_of movement_entries
entries_of-movement id facility_id ids movement amount = elim (Bool-cases (str_eq facility_id id)) [
  | inl y ↦ rw y refl
  | inr n ↦ rw n refl
]

pub project_movement :
    (currency : Currency) (limit : Money) (drawn_sum reserved_sum : ℤ) (id : String)
    (ids : MovementIds) (movement : PairedMovement) (amount : Money)
    → amount.currency ≡ currency
    → let pair = ledger_pair_for movement in
      project_onto currency limit
        (drawn_sum, reserved_sum)
        (movement_entries ids id movement amount)
      ≡ ok (record {
        currency = currency;
        limit = limit;
        drawn = money currency (drawn_sum +ℤ delta pair amount.minor_units LedgerAccount.drawn);
        reserved =
            money currency (reserved_sum +ℤ delta pair amount.minor_units LedgerAccount.reserved);
      })
unfolding project_onto movement_entries
project_movement currency limit d r id ids movement amount e =
    rw (same_currency_refl amount.currency currency e)
      (rw (pair_sums movement amount.minor_units d r) refl)
