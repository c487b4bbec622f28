-- ===== src/Money/Fx/Rounding.antt =====
-- What the two conversions of packages/money/src/fx.ts promise: the side that the customer fixed is
-- kept, and the other is rounded by less than one minor unit.
use inrsettling.Base.Decimal.{point_before, pad_start, show_ℤ}
use inrsettling.Base.{
  ℕ, ◌+◌, ◌*◌, ◌^◌, ◌<◌, ◌≡◌, refl, true, not, arith, ap, ◌∙◌, ◌&&◌, Bool-cases, inl, inr, same_iff,
}
use inrsettling.Base.Int.{ℤ, pos, pos_part, ◌+ℤ◌, ◌-ℤ◌, ◌*ℤ◌, ◌≤ℤ◌, ◌<ℤ◌, leb_ℤ, ltb_ℤ, eqb_ℤ}
use inrsettling.Base.Result.{ok, throw_if}
use inrsettling.Money.Amount.{
  Currency, Currency-discrete, same_currency, scale_of, Money, money, MoneyError,
}
use inrsettling.Money.Fx.Defs.{
  FxRate, Conversion, ExactAmount, assert_inr_right, ceil_div, floor_div, residual,
  remainder_as_exact_amount, power_of_ten, recipient_numerator, recipient_denominator,
  funding_for_recipient, verify_recipient_first, source_numerator, source_denominator,
  recipient_for_funding, verify_source_first, exact_amount_scale, zero_residual,
}
use inrsettling.Money.Fx.Division.{ceil_div_lem, floor_div_lem, IsCeil, IsFloor}

mul_pos : (a b : ℕ) → pos a *ℤ pos b ≡ pos (a * b)
unfolding ◌*ℤ◌
mul_pos a b = ground arith

scale_pos : (c : Currency) → 0 < 10 ^ scale_of c
unfolding scale_of
scale_pos Currency.usdt = omega arith
scale_pos _ = omega arith

product_pos : (a b : ℕ) → 0 < a → 0 < b → 0 < a * b
product_pos a b h k = grind arith

-- A rate that `fx_rate` accepts into rupees.
pub record IsInrRate (rate : FxRate) : Type 0 where
  pub into_inr : rate.quote ≡ Currency.inr
  pub positive : pos 0 <ℤ rate.rate_scaled

-- The residual is always expressible.
residual_ok :
    (currency : Currency) (num : ℤ) (m u : ℕ)
    → 0 < m
    → 0 < u
    → (exact : ExactAmount) × (residual currency num (pos m) (pos u) ≡ ok exact)
unfolding residual remainder_as_exact_amount
residual_ok currency num m u hm hu =
    let full : pos 2 *ℤ (pos m *ℤ pos u) ≡ pos (2 * (m * u)) =
      ap (λ x. pos 2 *ℤ x) (mul_pos m u) ∙ mul_pos 2 (m * u) in
    let (units, e, _) =
      floor_div_lem (pos 2 *ℤ (num *ℤ power_of_ten exact_amount_scale) +ℤ pos m *ℤ pos u)
        (2 * (m * u)) (product_pos 2 (m * u) (omega arith) (product_pos m u hm hu)) in
    elim (Bool-cases (eqb_ℤ num (pos 0))) [
      | inl y ↦ (zero_residual currency, rw y refl)
      | inr n ↦ (
        record {
          currency = currency;
          amount =
              point_before exact_amount_scale (pad_start (exact_amount_scale + 1) (show_ℤ units));
        },
        rw n (rw full (rw e refl)),
      )
    ]

-- The three tests at the head of a conversion pass.
inr_ok : (rate : FxRate) → rate.quote ≡ Currency.inr → assert_inr_right rate ≡ ok tt
unfolding assert_inr_right Currency-discrete
inr_ok rate h = ground arith

currency_ok :
    (a b : Currency)
    → a ≡ b
    → throw_if (not (same_currency a b)) MoneyError.currency_mismatch ≡ ok tt
unfolding Currency-discrete
currency_ok a b h = rw ((same_iff Currency-discrete a b).1 h) refl

sign_ok : (a : ℤ) → pos 0 ≤ℤ a → throw_if (ltb_ℤ a (pos 0)) MoneyError.negative ≡ ok tt
sign_ok a h = ground arith

-- Denominators are positive.
recipient_denominator-pos :
    (rate : FxRate)
    → pos 0 <ℤ rate.rate_scaled
    → (m : ℕ) × (recipient_denominator rate ≡ pos m) × (0 < m)
unfolding recipient_denominator scale_of ◌*ℤ◌
recipient_denominator-pos rate h = (pos_part rate.rate_scaled * 100, ground arith, ground arith)

source_denominator-pos : (c : Currency) → (m : ℕ) × (source_denominator c ≡ pos m) × (0 < m)
unfolding source_denominator
source_denominator-pos c =
    (10 ^ scale_of c * 10 ^ 10, mul_pos _ _, product_pos _ _ (scale_pos c) (omega arith))

verify_of_ceil :
    (num den q : ℤ) (m : ℕ)
    → den ≡ pos m
    → IsCeil q num m
    → leb_ℤ num (q *ℤ den) && ltb_ℤ ((q -ℤ pos 1) *ℤ den) num ≡ true
verify_of_ceil num den q m e h = rw e (ground arith)

verify_of_floor :
    (num den q : ℤ) (m : ℕ)
    → den ≡ pos m
    → IsFloor q num m
    → leb_ℤ (q *ℤ den) num && ltb_ℤ num ((q +ℤ pos 1) *ℤ den) ≡ true
verify_of_floor num den q m e h = rw e (ground arith)

-- Funding an exact recipient amount never fails on a valid rate: the recipient amount is the one that
-- was asked for, the funding is in the currency of the rate, and the check of the code holds.
pub funding_for_recipient_lem :
    (recipient : Money) (rate : FxRate)
    → recipient.currency ≡ Currency.inr
    → pos 0 ≤ℤ recipient.minor_units
    → IsInrRate rate
    → (c : Conversion) × (funding_for_recipient recipient rate ≡ ok c)
      × (c.recipient_amount ≡ recipient)
      × (c.funding_amount.currency ≡ rate.base)
      × (c.rate ≡ rate)
      × (verify_recipient_first c ≡ true)
unfolding funding_for_recipient verify_recipient_first
funding_for_recipient_lem recipient rate rupees sign h =
    let (m, den, hm) = recipient_denominator-pos rate h.positive in
    let num = recipient_numerator rate.base recipient.minor_units in
    let (q, e, rounded) = ceil_div_lem num m hm in
    let (exact, x) =
      residual_ok rate.base (q *ℤ recipient_denominator rate -ℤ num) m (10 ^ scale_of rate.base) hm
        (scale_pos rate.base) in
    (
      record {
        recipient_amount = recipient;
        funding_amount = money rate.base q;
        rounding_residual = exact;
        rate = rate;
      },
      rw
          (
            inr_ok rate h.into_inr,
            currency_ok recipient.currency Currency.inr rupees,
            sign_ok recipient.minor_units sign,
          )
          (rw (ap (ceil_div num) den ∙ e) (
            rw
              (ap
                  (λ d.
                    residual rate.base (q *ℤ recipient_denominator rate -ℤ num) d
                      (power_of_ten (scale_of rate.base)))
                  den
                ∙ x)
              refl)),
      refl,
      refl,
      refl,
      verify_of_ceil num (recipient_denominator rate) q m den rounded,
    )

-- The other conversion: the funding is kept, and the recipient amount is rounded down to the paise.
pub recipient_for_funding_lem :
    (funding : Money) (rate : FxRate)
    → funding.currency ≡ rate.base
    → pos 0 ≤ℤ funding.minor_units
    → IsInrRate rate
    → (c : Conversion) × (recipient_for_funding funding rate ≡ ok c)
      × (c.funding_amount ≡ funding)
      × (c.recipient_amount.currency ≡ Currency.inr)
      × (c.rate ≡ rate)
      × (verify_source_first c ≡ true)
unfolding recipient_for_funding verify_source_first
recipient_for_funding_lem funding rate same_base sign h =
    let (m, den, hm) = source_denominator-pos funding.currency in
    let num = source_numerator funding.minor_units rate in
    let (q, e, rounded) = floor_div_lem num m hm in
    let (exact, x) =
      residual_ok Currency.inr (num -ℤ q *ℤ source_denominator funding.currency) m
        (10 ^ scale_of Currency.inr) hm (scale_pos Currency.inr) in
    (
      record {
        recipient_amount = money Currency.inr q;
        funding_amount = funding;
        rounding_residual = exact;
        rate = rate;
      },
      rw
          (
            inr_ok rate h.into_inr,
            currency_ok funding.currency rate.base same_base,
            sign_ok funding.minor_units sign,
          )
          (rw (ap (floor_div num) den ∙ e) (
            rw
              (ap
                  (λ d.
                    residual Currency.inr (num -ℤ q *ℤ source_denominator funding.currency) d
                      (power_of_ten (scale_of Currency.inr)))
                  den
                ∙ x)
              refl)),
      refl,
      refl,
      refl,
      verify_of_floor num (source_denominator funding.currency) q m den rounded,
    )
