-- ===== src/Liquidity/Service/Headroom.antt =====
-- What a granted reservation leaves of the headroom of its facility (reserveLiquidity of
-- packages/app/src/liquidity.service.ts).
use Prim.Native.String.{String}
use text.Mathlib.Text.{◌==◌ as str_eq}
use text.Mathlib.TextEquality.{eq_iff}
use inrsettling.Base.{
  ℕ, ◌+◌, ◌*◌, ◌≡◌, refl, sym, ap, ◌∙◌, true, false, inl, inr, some, ◌∷◌, subst, arith,
}
use inrsettling.Base.Int.{ℤ, pos, ◌+ℤ◌, ◌-ℤ◌, ◌≤ℤ◌, eq_of_parts, -ℤ_parts, +ℤ_parts}
use inrsettling.Base.Result.{ok}
use inrsettling.Money.Amount.{Money, money}
use inrsettling.Liquidity.Facility.{FacilityStatus, PairedMovement, ledger_pair_for}
use inrsettling.Settlement.Service.Defs.{Principal}
use inrsettling.Liquidity.Service.Defs.{Facility, Reservation, Store, MovementIds, delta, move_row}
use inrsettling.Liquidity.Service.Reserve.{
  ReserveInput, ReserveResult, has_active, new_reservation, insert_reservation, reserve_liquidity,
}
use inrsettling.Liquidity.Service.Ledger.{facility_at}
use inrsettling.Liquidity.Service.Posting.{find-passes, post_movement-found, moved_row}
use inrsettling.Liquidity.Service.Reserving.{left_of, lock_facility-some, can_reserve-permitted}
use mathlib.Core.Option.{some-injective}
use mathlib.Core.Path.{ap₂}
use inrsettling.Liquidity.Service.Granting.{Outcome, reserve_outcome, answered_with}

-- The facility of a granted reservation, after it.
reserved_row :
    (store : Store) (actor : Principal) (ids : MovementIds) (r : Reservation) (f f' : Facility)
    → facility_at store r.facility_id ≡ some f
    → facility_at (insert_reservation store actor ids r) r.facility_id ≡ some f'
    → moved_row r.facility_id PairedMovement.reservation_created r.amount f ≡ f'
unfolding insert_reservation
reserved_row store actor ids r f f' before after =
    let staged = record store { reservations = r ∷ store.reservations } in
    let (g, found, moved) =
      post_movement-found staged ids r.facility_id PairedMovement.reservation_created r.amount
        r.facility_id after in
    ap (moved_row r.facility_id PairedMovement.reservation_created r.amount)
      (some-injective _ _ (sym before ∙ found))
    ∙ moved

less_by : (l d r a : ℤ) → l -ℤ (d +ℤ (pos 0 -ℤ pos 0)) -ℤ (r +ℤ (a -ℤ pos 0)) ≡ l -ℤ d -ℤ r -ℤ a
less_by l d r a = eq_of_parts _ _ (
    omega (
      arith,
      -ℤ_parts (pos 0) (pos 0),
      -ℤ_parts a (pos 0),
      +ℤ_parts d (pos 0 -ℤ pos 0),
      +ℤ_parts r (a -ℤ pos 0),
      -ℤ_parts l (d +ℤ (pos 0 -ℤ pos 0)),
      -ℤ_parts (l -ℤ (d +ℤ (pos 0 -ℤ pos 0))) (r +ℤ (a -ℤ pos 0)),
      -ℤ_parts l d,
      -ℤ_parts (l -ℤ d) r,
      -ℤ_parts (l -ℤ d -ℤ r) a,
    ))

reserved_left :
    (id : String) (amount : Money) (f : Facility)
    → str_eq f.id id ≡ true
    → let f' = moved_row id PairedMovement.reservation_created amount f in
      (f'.currency ≡ f.currency) × (left_of f' ≡ left_of f -ℤ amount.minor_units)
unfolding move_row delta ledger_pair_for
reserved_left id amount f here =
    rw here (refl, less_by f.limit_minor f.drawn_minor f.reserved_minor amount.minor_units)

reserved_injective :
    {a b : String} {m n : Money} {s t : ℕ}
    → ReserveResult.reserved a m s ≡ ReserveResult.reserved b n t
    → (a ≡ b) × (m ≡ n) × (s ≡ t)
reserved_injective h = (cc, cc, cc)

-- A reservation is granted only from an active facility, in its currency, for no more than is left of
-- it and for a settlement that has none. What the answer says is left is less by just the amount, and
-- is not negative; it expires at the time of the database and the lifetime that was asked for.
pub reserve_liquidity-headroom :
    (store : Store) (input : ReserveInput) (id : String) (ids : MovementIds) (now : ℕ)
    {store' : Store} {granted : String} {left : Money} {expires_at : ℕ}
    → reserve_liquidity store input id ids now
      ≡ ok (store', ReserveResult.reserved granted left expires_at)
    → (f : Facility) × (facility_at store input.facility_id ≡ some f)
      × (f.status ≡ FacilityStatus.active)
      × (input.amount.currency ≡ f.currency)
      × (input.amount.minor_units ≤ℤ left_of f)
      × (has_active store input.settlement_id ≡ false)
      × (left ≡ money f.currency (left_of f -ℤ input.amount.minor_units))
      × (pos 0 ≤ℤ left.minor_units)
      × (expires_at ≡ now + input.ttl_seconds * 1000)
unfolding Outcome new_reservation
reserve_liquidity-headroom store input id ids now {store'} {granted} {left} {expires_at} run =
    elim (reserve_outcome store input id ids now store'
      (ReserveResult.reserved granted left expires_at) run) [
        | inl (_, n) ↦ cc
        | inr g ↦
            let (found, position, _, _) =
              lock_facility-some store input.facility_id g.row g.locked in
            let (active, currency, enough) =
              can_reserve-permitted g.row.raw input.amount (rw position at g.permitted) in
            let r = new_reservation input g.row id now in
            let (row, l, _, answer) =
              answered_with (insert_reservation store input.actor ids r) r g.answered in
            let (after, _, available, rest) =
              lock_facility-some (insert_reservation store input.actor ids r) r.facility_id row l in
            let here =
              find-passes (λ (x : Facility). str_eq x.id input.facility_id) store.facilities
                found in
            let same_id = (eq_iff g.row.raw.id input.facility_id).0 here in
            let moved =
              reserved_row store input.actor ids r g.row.raw row.raw
                (ap (facility_at store) same_id ∙ found) after in
            let (its_currency, its_left) =
              reserved_left g.row.raw.id input.amount g.row.raw
                ((eq_iff g.row.raw.id g.row.raw.id).1 refl) in
            let (_, its_answer, expiry) = reserved_injective answer in
            let left_is =
              its_answer
              ∙ available
              ∙ ap (λ (x : Facility). money x.currency (left_of x)) (sym moved)
              ∙ ap₂ (λ c m. money c m) its_currency its_left in
            (
              g.row.raw,
              found,
              active,
              currency,
              enough,
              g.unreserved,
              left_is,
              subst (λ (m : Money). pos 0 ≤ℤ m.minor_units) (sym (its_answer ∙ available)) rest,
              expiry,
            )
      ]
