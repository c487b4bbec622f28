-- ===== src/Liquidity/Service/Reserving.antt =====
-- INV-19 and INV-20: what is reserved was available, and is available no more.
use Prim.Native.String.{String}
use inrsettling.Base.{
  ◌≡◌, ◌≢◌, refl, true, false, Bool-cases, Option-cases, inl, inr, Option, none, some,
  if◌then◌else◌, same_iff, arith,
}
use inrsettling.Base.Int.{ℤ, pos, ◌-ℤ◌, ◌≤ℤ◌, ltb_ℤ}
use inrsettling.Base.Result.{Result, ok, err, ◌>>=◌}
use inrsettling.Money.Amount.{
  Currency, Currency-discrete, Money, money, same_currency, subtract, compare, Comparison,
  assert_same,
}
use inrsettling.Liquidity.Facility.{
  FacilityStatus, FacilityPosition, LiquidityError, CanReserve, available_to_settle, can_reserve,
  of_money, facility_accepts_new_exposure, is_less,
}
use inrsettling.Liquidity.Service.Defs.{
  Facility, Store, FacilityRow, lock_facility, to_facility_row, to_position,
}
use inrsettling.Liquidity.Service.Ledger.{facility_at}

-- The sum that is left of a row.
abbrev pub left_of : Facility → ℤ
left_of f = f.limit_minor -ℤ f.drawn_minor -ℤ f.reserved_minor

pub same_self : (c : Currency) → same_currency c c ≡ true
unfolding Currency-discrete
same_self c = (same_iff Currency-discrete c c).1 refl

subtract_same : (c : Currency) (a b : ℤ) → subtract (money c a) (money c b) ≡ ok (money c (a -ℤ b))
unfolding subtract assert_same
subtract_same c a b = rw (same_self c) refl

compare_same :
    (c : Currency) (a b : ℤ)
    → compare (money c a) (money c b)
      ≡ ok (
          if ltb_ℤ a b
          then Comparison.less
          else if ltb_ℤ b a
          then Comparison.greater
          else Comparison.equal)
unfolding compare assert_same
compare_same c a b = rw (same_self c) refl

-- On a row the two subtractions never meet two currencies.
pub available_of_row :
    (f : Facility)
    → available_to_settle (to_position f) ≡ (
        if ltb_ℤ (left_of f) (pos 0)
        then err LiquidityError.negative_availability
        else ok (money f.currency (left_of f)))
unfolding available_to_settle to_position of_money
available_of_row f = rw (subtract_same f.currency f.limit_minor f.drawn_minor) (
    rw (subtract_same f.currency (f.limit_minor -ℤ f.drawn_minor) f.reserved_minor)
      (elim (Bool-cases (ltb_ℤ (left_of f) (pos 0))) [ inl y ↦ rw y refl | inr n ↦ rw n refl ]))

-- The row that a read gives, if it gives one.
to_facility_row_lem :
    (f : Facility)
    → to_facility_row f ≡ (
        if ltb_ℤ (left_of f) (pos 0)
        then err LiquidityError.negative_availability
        else ok (record {
          raw = f;
          position = to_position f;
          available = money f.currency (left_of f);
        }))
unfolding to_facility_row
to_facility_row_lem f =
    rw (available_of_row f)
      (elim (Bool-cases (ltb_ℤ (left_of f) (pos 0))) [ inl y ↦ rw y refl | inr n ↦ rw n refl ])

no_row :
    {row : FacilityRow}
    → ◌≢◌ {A = Result LiquidityError (Option FacilityRow)} (ok none) (ok (some row))
no_row h = cc

err_row :
    {e : LiquidityError} {row : FacilityRow}
    → ◌≢◌ {A = Result LiquidityError (Option FacilityRow)} (err e) (ok (some row))
err_row h = cc

row_injective :
    {a b : FacilityRow}
    → ◌≡◌ {A = Result LiquidityError (Option FacilityRow)} (ok (some a)) (ok (some b))
    → a ≡ b
row_injective h = cc

not_negative : (a : ℤ) → ltb_ℤ a (pos 0) ≡ false → pos 0 ≤ℤ a
not_negative a h = ground arith

-- A row that is read has something left, or nothing, never less.
pub lock_facility-some :
    (store : Store) (id : String) (row : FacilityRow)
    → lock_facility store id ≡ ok (some row)
    → (facility_at store id ≡ some row.raw)
      × (row.position ≡ to_position row.raw)
      × (row.available ≡ money row.raw.currency (left_of row.raw))
      × (pos 0 ≤ℤ left_of row.raw)
unfolding lock_facility
lock_facility-some store id row h = elim (Option-cases (facility_at store id)) [
  | inl n ↦ absurd (no_row (rw (n, lock_facility) at h))
  | inr (f, s) ↦ elim (Bool-cases (ltb_ℤ (left_of f) (pos 0))) [
    | inl y ↦ absurd (err_row (rw (to_facility_row_lem f, y) at (rw (s, lock_facility) at h)))
    | inr n ↦
        let e = row_injective (rw (to_facility_row_lem f, n) at (rw (s, lock_facility) at h)) in
        rw (← e) (s, refl, refl, not_negative (left_of f) n)
  ]
]

wrong_reason :
    (c : CanReserve)
    → c ≢ CanReserve.permitted
    → ◌≢◌ {A = Result LiquidityError CanReserve} (ok c) (ok CanReserve.permitted)
wrong_reason c ne h = ne (cc)

active_of :
    (s : FacilityStatus) → facility_accepts_new_exposure s ≡ true → s ≡ FacilityStatus.active
unfolding facility_accepts_new_exposure
active_of FacilityStatus.active h = refl
active_of FacilityStatus.suspended h = cc
active_of FacilityStatus.closed h = cc

pub same_of : (c d : Currency) → same_currency c d ≡ true → c ≡ d
unfolding Currency-discrete
same_of c d h = (same_iff Currency-discrete c d).0 h

compare_with :
    (c : Currency) (a : ℤ) (m : Money)
    → m.currency ≡ c
    → compare (money c a) m
      ≡ ok (
          if ltb_ℤ a m.minor_units
          then Comparison.less
          else if ltb_ℤ m.minor_units a
          then Comparison.greater
          else Comparison.equal)
compare_with c a m e = rw (← e) (compare_same m.currency a m.minor_units)

err_verdict :
    {e : LiquidityError} {c : CanReserve}
    → ◌≢◌ {A = Result LiquidityError CanReserve} (err e) (ok c)
err_verdict h = cc

not_less : (a b : ℤ) → ltb_ℤ a b ≡ false → b ≤ℤ a
not_less a b h = ground arith

-- The last test of the reservation.
abbrev headroom_test : FacilityPosition → Money → Result LiquidityError CanReserve
unfolding of_money is_less
headroom_test position amount = available_to_settle position >>= λ available.
    of_money (compare available amount) >>= λ order.
    ok (if is_less order then CanReserve.insufficient_availability else CanReserve.permitted)

enough :
    (f : Facility) (amount : Money)
    → amount.currency ≡ f.currency
    → headroom_test (to_position f) amount ≡ ok CanReserve.permitted
    → amount.minor_units ≤ℤ left_of f
unfolding headroom_test of_money is_less
enough f amount e h = elim (Bool-cases (ltb_ℤ (left_of f) (pos 0))) [
  | inl y ↦ absurd (err_verdict (rw (available_of_row f, y) at h))
  | inr n ↦
      let h1 = rw (available_of_row f, n) at h in
      let h2 = rw (compare_with f.currency (left_of f) amount e) at h1 in
      elim (Bool-cases (ltb_ℤ (left_of f) amount.minor_units)) [
        | inl y ↦ absurd (wrong_reason CanReserve.insufficient_availability (λ k. cc) (rw y at h2))
        | inr k ↦ not_less (left_of f) amount.minor_units k
      ]
]

-- What a permission rests on.
pub can_reserve-permitted :
    (f : Facility) (amount : Money)
    → can_reserve (to_position f) f.status amount ≡ ok CanReserve.permitted
    → (f.status ≡ FacilityStatus.active)
      × (amount.currency ≡ f.currency)
      × (amount.minor_units ≤ℤ left_of f)
unfolding can_reserve to_position of_money is_less
can_reserve-permitted f amount h = elim (Bool-cases (facility_accepts_new_exposure f.status)) [
  | inr n ↦
      absurd (wrong_reason CanReserve.facility_not_active (λ e. cc) (rw (n, can_reserve) at h))
  | inl y ↦
      let h1 = rw (y, can_reserve) at h in
      elim (Bool-cases (same_currency amount.currency f.currency)) [
        | inr n ↦ absurd (wrong_reason CanReserve.currency_mismatch (λ e. cc) (rw n at h1))
        | inl s ↦
            let h2 = rw s at h1 in
            (
              active_of f.status y,
              same_of amount.currency f.currency s,
              enough f amount (same_of amount.currency f.currency s) h2,
            )
      ]
]
