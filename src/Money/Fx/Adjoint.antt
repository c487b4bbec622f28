-- ===== src/Money/Fx/Adjoint.antt =====
-- How the two conversions of packages/money/src/fx.ts fit together.
use inrsettling.Base.{ℕ, ◌+◌, ◌*◌, ◌^◌, ◌≤◌, ◌≡◌, ◌↔◌, true, arith, sym, ap, ◌∙◌}
use inrsettling.Base.Int.{
  ℤ, pos, pos_part, neg_part, ◌+ℤ◌, ◌-ℤ◌, ◌*ℤ◌, ◌≤ℤ◌, ◌<ℤ◌, -ℤ_parts, +ℤ_parts, eq_of_parts,
}
use inrsettling.Base.Result.{Result, ok}
use inrsettling.Money.Amount.{Currency, scale_of, Money, MoneyError}
use inrsettling.Money.Fx.Defs.{
  FxRate, Conversion, recipient_numerator, recipient_denominator, funding_for_recipient,
  verify_recipient_first, source_numerator, source_denominator, recipient_for_funding,
  verify_source_first,
}
use inrsettling.Money.Fx.Division.{*ℤ_parts}
use inrsettling.Money.Fx.Rounding.{IsInrRate, funding_for_recipient_lem, recipient_for_funding_lem}

le_product : (x y m : ℕ) → x ≤ y → x * m ≤ y * m
le_product x y m h = grind arith

mul_mono : (a b : ℤ) (m : ℕ) → a ≤ℤ b → a *ℤ pos m ≤ℤ b *ℤ pos m
mul_mono a b m h = omega (
  arith,
  *ℤ_parts a m,
  *ℤ_parts b m,
  le_product (pos_part a + neg_part b) (pos_part b + neg_part a) m h,
)

mul_cancel : (a b : ℤ) (m : ℕ) → a *ℤ pos m <ℤ b *ℤ pos m → a <ℤ b
mul_cancel a b m h = grind (
  arith,
  *ℤ_parts a m,
  *ℤ_parts b m,
  le_product (pos_part b + neg_part a) (pos_part a + neg_part b) m,
)

-- The numbers behind the two conversions: `q` rounds R·m₂/m₁ up, `p` rounds F·m₁/m₂ down.
adjoint :
    (R F q p : ℤ) (m n : ℕ)
    → R *ℤ pos n ≤ℤ q *ℤ pos m
    → (q -ℤ pos 1) *ℤ pos m <ℤ R *ℤ pos n
    → p *ℤ pos n ≤ℤ F *ℤ pos m
    → F *ℤ pos m <ℤ (p +ℤ pos 1) *ℤ pos n
    → (R ≤ℤ p) ↔ (q ≤ℤ F)
adjoint R F q p m n up least down most = (
  λ h.
      let e = mul_cancel (q -ℤ pos 1) F m (omega (arith, mul_mono R p n h)) in
      omega (arith, -ℤ_parts q (pos 1)),
  λ h.
      let e = mul_cancel R (p +ℤ pos 1) n (omega (arith, mul_mono q F m h)) in
      omega (arith, +ℤ_parts p (pos 1)),
)

mul_assoc : (x : ℤ) (a b : ℕ) → x *ℤ pos a *ℤ pos b ≡ x *ℤ pos (a * b)
mul_assoc x a b = eq_of_parts (x *ℤ pos a *ℤ pos b) (x *ℤ pos (a * b)) (
    omega
      (arith, *ℤ_parts x (a * b), *ℤ_parts (x *ℤ pos a) b, ap (λ (t : ℕ). t * b) (*ℤ_parts x a)))

mul_pos : (a b : ℕ) → pos a *ℤ pos b ≡ pos (a * b)
unfolding ◌*ℤ◌
mul_pos a b = ground arith

pos_of : (z : ℤ) → pos 0 <ℤ z → z ≡ pos (pos_part z)
pos_of z h = ground arith

-- The weight of one minor unit on either side.
abbrev paise_weight : Currency → ℕ
paise_weight c = 10 ^ scale_of c * 10 ^ 10

abbrev unit_weight : FxRate → ℕ
unit_weight rate = pos_part rate.rate_scaled * 10 ^ scale_of Currency.inr

recipient_numerator_lem :
    (c : Currency) (r : ℤ) → recipient_numerator c r ≡ r *ℤ pos (paise_weight c)
unfolding recipient_numerator
recipient_numerator_lem c r = mul_assoc r (10 ^ scale_of c) (10 ^ 10)

source_denominator_lem : (c : Currency) → source_denominator c ≡ pos (paise_weight c)
unfolding source_denominator
source_denominator_lem c = mul_pos (10 ^ scale_of c) (10 ^ 10)

recipient_denominator_lem :
    (rate : FxRate)
    → pos 0 <ℤ rate.rate_scaled
    → recipient_denominator rate ≡ pos (unit_weight rate)
unfolding recipient_denominator
recipient_denominator_lem rate h =
    ap (λ z. z *ℤ pos (10 ^ scale_of Currency.inr)) (pos_of rate.rate_scaled h)
    ∙ mul_pos (pos_part rate.rate_scaled) (10 ^ scale_of Currency.inr)

source_numerator_lem :
    (rate : FxRate) (f : ℤ)
    → pos 0 <ℤ rate.rate_scaled
    → source_numerator f rate ≡ f *ℤ pos (unit_weight rate)
unfolding source_numerator
source_numerator_lem rate f h =
    ap (λ z. f *ℤ z *ℤ pos (10 ^ scale_of Currency.inr)) (pos_of rate.rate_scaled h)
    ∙ mul_assoc f (pos_part rate.rate_scaled) (10 ^ scale_of Currency.inr)

ok_injective : {c d : Conversion} → ◌≡◌ {A = Result MoneyError Conversion} (ok c) (ok d) → c ≡ d
ok_injective h = cc

recipient_first_bounds :
    (c : Conversion)
    → verify_recipient_first c ≡ true
    → let num = recipient_numerator c.funding_amount.currency c.recipient_amount.minor_units in
      let den = recipient_denominator c.rate in
      let q = c.funding_amount.minor_units in (num ≤ℤ q *ℤ den) × ((q -ℤ pos 1) *ℤ den <ℤ num)
unfolding verify_recipient_first
recipient_first_bounds c h = ground arith

source_first_bounds :
    (c : Conversion)
    → verify_source_first c ≡ true
    → let num = source_numerator c.funding_amount.minor_units c.rate in
      let den = source_denominator c.funding_amount.currency in
      let p = c.recipient_amount.minor_units in (p *ℤ den ≤ℤ num) × (num <ℤ (p +ℤ pos 1) *ℤ den)
unfolding verify_source_first
source_first_bounds c h = ground arith

-- What a conversion into rupees yields, said of its numbers alone.
IsUp : ℤ → FxRate → ℤ → Type 0
IsUp r rate q =
    let m = unit_weight rate in
    let n = paise_weight rate.base in
    (r *ℤ pos n ≤ℤ q *ℤ pos m) × ((q -ℤ pos 1) *ℤ pos m <ℤ r *ℤ pos n)

IsDown : ℤ → FxRate → ℤ → Type 0
IsDown f rate p =
    let m = unit_weight rate in
    let n = paise_weight rate.base in
    (p *ℤ pos n ≤ℤ f *ℤ pos m) × (f *ℤ pos m <ℤ (p +ℤ pos 1) *ℤ pos n)

up_from :
    {num den : ℤ} (r q : ℤ) (m n : ℕ)
    → num ≡ r *ℤ pos n
    → den ≡ pos m
    → num ≤ℤ q *ℤ den
    → (q -ℤ pos 1) *ℤ den <ℤ num
    → (r *ℤ pos n ≤ℤ q *ℤ pos m) × ((q -ℤ pos 1) *ℤ pos m <ℤ r *ℤ pos n)
up_from r q m n e k h g = rw (← e, ← k) (h, g)

down_from :
    {num den : ℤ} (f p : ℤ) (m n : ℕ)
    → num ≡ f *ℤ pos m
    → den ≡ pos n
    → p *ℤ den ≤ℤ num
    → num <ℤ (p +ℤ pos 1) *ℤ den
    → (p *ℤ pos n ≤ℤ f *ℤ pos m) × (f *ℤ pos m <ℤ (p +ℤ pos 1) *ℤ pos n)
down_from f p m n e k h g = rw (← e, ← k) (h, g)

funding-IsUp :
    (recipient : Money) (rate : FxRate) {c : Conversion}
    → recipient.currency ≡ Currency.inr
    → pos 0 ≤ℤ recipient.minor_units
    → IsInrRate rate
    → funding_for_recipient recipient rate ≡ ok c
    → IsUp recipient.minor_units rate c.funding_amount.minor_units
unfolding IsUp
funding-IsUp recipient rate {c} rupees sign h run =
    let (c0, run0, kept, base, its_rate, checked) =
      funding_for_recipient_lem recipient rate rupees sign h in
    let same_c = ok_injective (sym run ∙ run0) in
    let b = recipient_first_bounds c0 checked in
    let num =
      ap (λ k. recipient_numerator k c0.recipient_amount.minor_units) base
      ∙ ap (λ (r : Money). recipient_numerator rate.base r.minor_units) kept
      ∙ recipient_numerator_lem rate.base recipient.minor_units in
    let den = ap recipient_denominator its_rate ∙ recipient_denominator_lem rate h.positive in
    rw same_c (up_from _ _ _ _ num den b.0 b.1)

recipient-IsDown :
    (funding : Money) (rate : FxRate) {d : Conversion}
    → funding.currency ≡ rate.base
    → pos 0 ≤ℤ funding.minor_units
    → IsInrRate rate
    → recipient_for_funding funding rate ≡ ok d
    → IsDown funding.minor_units rate d.recipient_amount.minor_units
unfolding IsDown
recipient-IsDown funding rate {d} same_base sign h run =
    let (d0, run0, kept, rupees, its_rate, checked) =
      recipient_for_funding_lem funding rate same_base sign h in
    let same_d = ok_injective (sym run ∙ run0) in
    let b = source_first_bounds d0 checked in
    let num =
      ap (λ (x : FxRate). source_numerator d0.funding_amount.minor_units x) its_rate
      ∙ ap (λ (x : Money). source_numerator x.minor_units rate) kept
      ∙ source_numerator_lem rate funding.minor_units h.positive in
    let den =
      ap (λ (x : Money). source_denominator x.currency) kept
      ∙ ap source_denominator same_base
      ∙ source_denominator_lem rate.base in
    rw same_d (down_from _ _ _ _ num den b.0 b.1)

-- The two conversions agree: at a rate into rupees, a funding amount buys at least the recipient's
-- amount exactly when it is at least what that amount is charged. So rounding never lets a customer
-- fund less than a payout takes, nor pay more than the least funding that buys it.
pub conversions_adjoint :
    (recipient funding : Money) (rate : FxRate) {c d : Conversion}
    → recipient.currency ≡ Currency.inr
    → pos 0 ≤ℤ recipient.minor_units
    → funding.currency ≡ rate.base
    → pos 0 ≤ℤ funding.minor_units
    → IsInrRate rate
    → funding_for_recipient recipient rate ≡ ok c
    → recipient_for_funding funding rate ≡ ok d
    → (recipient.minor_units ≤ℤ d.recipient_amount.minor_units)
      ↔ (c.funding_amount.minor_units ≤ℤ funding.minor_units)
unfolding IsUp IsDown
conversions_adjoint recipient funding rate {c} {d} rupees r0 same_base f0 h run_up run_down =
    let (least, below) = funding-IsUp recipient rate rupees r0 h run_up in
    let (down, most) = recipient-IsDown funding rate same_base f0 h run_down in
    adjoint recipient.minor_units funding.minor_units c.funding_amount.minor_units
      d.recipient_amount.minor_units (unit_weight rate) (paise_weight rate.base) least below down
      most
