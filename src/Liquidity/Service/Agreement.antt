-- ===== src/Liquidity/Service/Agreement.antt =====
-- The check of the projection over any history of packages/app/src/liquidity.service.ts.
use Prim.Native.String.{String}
use inrsettling.Base.{
  ◌≡◌, ◌≢◌, refl, sym, ap, ◌∙◌, true, Bool-cases, inl, inr, some, List, [], ◌∷◌, if◌then◌else◌,
  arith, same,
}
use inrsettling.Base.Int.{ℤ, pos, ◌+ℤ◌, +ℤ_parts, eq_of_parts, eqb_ℤ}
use inrsettling.Base.Result.{Result, ok, err}
use inrsettling.Money.Amount.{Currency, Money, money, same_currency}
use inrsettling.Liquidity.Facility.{
  FacilityPosition, LiquidityError, LedgerAccount, LedgerAccount-discrete, LedgerEntry, signed,
  count_entry, project_onto, project_position,
}
use inrsettling.Liquidity.Service.Defs.{Facility, Store, to_position}
use inrsettling.Liquidity.Service.Facilities.{
  ProjectionCheck, check_facility_projection, account_sum, entries_of, compare_row,
}
use inrsettling.Liquidity.Service.Ledger.{facility_at, IsProjected}
use inrsettling.Liquidity.Service.Consistency.{IsConsistent}
use inrsettling.Liquidity.Service.Steps.{Reach, Reach_inv, empty_store}
use inrsettling.Liquidity.Service.Projection.{Step-IsConsistent}

add_zero : (a : ℤ) → a ≡ a +ℤ pos 0
add_zero a = eq_of_parts _ _ (omega (arith, +ℤ_parts a (pos 0)))

zero_add : (b : ℤ) → pos 0 +ℤ b ≡ b
zero_add b = eq_of_parts _ _ (omega (arith, +ℤ_parts (pos 0) b))

add_assoc : (a b c : ℤ) → a +ℤ b +ℤ c ≡ a +ℤ (b +ℤ c)
add_assoc a b c =
    eq_of_parts _ _
      (omega (arith, +ℤ_parts a b, +ℤ_parts (a +ℤ b) c, +ℤ_parts b c, +ℤ_parts a (b +ℤ c)))

-- What one entry adds, on the side of the domain and on that of the schema.
entry_sums :
    (a : LedgerAccount) (x d r s t : ℤ)
    → let sums = count_entry a x d r in
      (sums.0 +ℤ s ≡ d +ℤ (if same LedgerAccount-discrete a LedgerAccount.drawn then x +ℤ s else s))
      × (sums.1 +ℤ t
          ≡ r +ℤ (if same LedgerAccount-discrete a LedgerAccount.reserved then x +ℤ t else t))
unfolding count_entry LedgerAccount-discrete
entry_sums LedgerAccount.available x d r s t = (refl, refl)
entry_sums LedgerAccount.reserved x d r s t = (refl, add_assoc r x t)
entry_sums LedgerAccount.drawn x d r s t = (add_assoc d x s, refl)

ok_injective :
    {p q : FacilityPosition}
    → ◌≡◌ {A = Result LiquidityError FacilityPosition} (ok p) (ok q)
    → p ≡ q
ok_injective h = cc

err_ok :
    {e : LiquidityError} {p : FacilityPosition}
    → ◌≢◌ {A = Result LiquidityError FacilityPosition} (err e) (ok p)
err_ok h = cc

-- The loop of `projectPosition` and the sums of `project_facility_position` give the same figures.
pub project_onto-account_sum :
    (currency : Currency) (limit : Money) (d r : ℤ) (xs : List LedgerEntry) {p : FacilityPosition}
    → project_onto currency limit (d, r) xs ≡ ok p
    → (p.drawn.minor_units ≡ d +ℤ account_sum LedgerAccount.drawn xs)
      × (p.reserved.minor_units ≡ r +ℤ account_sum LedgerAccount.reserved xs)
unfolding project_onto account_sum
project_onto-account_sum currency limit d r [] {p} h = (
  ap (λ (q : FacilityPosition). q.drawn.minor_units) (sym (ok_injective h)) ∙ add_zero d,
  ap (λ (q : FacilityPosition). q.reserved.minor_units) (sym (ok_injective h)) ∙ add_zero r,
)
project_onto-account_sum currency limit d r (x ∷ xs) {p} h =
    elim (Bool-cases (same_currency x.currency currency)) [
      | inr n ↦ absurd (err_ok (rw n at h))
      | inl y ↦
          let amount = signed x.direction x.minor_units in
          let sums = count_entry x.account amount d r in
          let (ih_drawn, ih_reserved) =
            project_onto-account_sum currency limit sums.0 sums.1 xs {p = p} (rw y at h) in
          let (drawn, reserved) =
            entry_sums x.account amount d r (account_sum LedgerAccount.drawn xs)
              (account_sum LedgerAccount.reserved xs) in
          (ih_drawn ∙ drawn, ih_reserved ∙ reserved)
    ]

eqb_refl : (a b : ℤ) → a ≡ pos 0 +ℤ b → eqb_ℤ a b ≡ true
eqb_refl a b h = rw (h ∙ zero_add b) (ground arith)

empty-IsConsistent : IsConsistent empty_store
unfolding IsProjected
empty-IsConsistent = record {
  projected = λ id f h. cc;
  reservations_currency = tt;
  repayments_currency = tt;
}

-- Every store that the service reaches from an empty one keeps each facility at its ledger.
pub Reach-IsConsistent : {s : Store} → Reach empty_store s → IsConsistent s
Reach-IsConsistent r = Reach_inv IsConsistent Step-IsConsistent r empty-IsConsistent

-- Whatever facilities were created and whatever was reserved, released, consumed, requested and
-- repaid, in any order and with any refusals in between: the check of a facility finds its cached
-- figures equal to the sums of its ledger entries, so the alarm of INV-23 is never raised.
pub check_facility_projection-agrees :
    {s : Store} (id : String) {f : Facility}
    → Reach empty_store s
    → facility_at s id ≡ some f
    → (c : ProjectionCheck) × (check_facility_projection s id ≡ some c)
      × (c.agrees ≡ true)
      × (c.stored ≡ (f.drawn_minor, f.reserved_minor))
unfolding check_facility_projection IsProjected project_position to_position
check_facility_projection-agrees {s} id {f} reached found =
    let projected = (Reach-IsConsistent reached).projected id f found in
    let (drawn, reserved) =
      project_onto-account_sum f.currency (money f.currency f.limit_minor) (pos 0) (pos 0)
        (entries_of id s.ledger) projected in
    (
      compare_row f id (entries_of id s.ledger),
      rw (found, check_facility_projection) refl,
      rw (eqb_refl _ _ drawn, eqb_refl _ _ reserved) refl,
      refl,
    )
