-- ===== src/Money/Fx/Defs.antt =====
-- The definitions of packages/money/src/fx.ts. A pair is its two currencies.
use Prim.Native.String.{String}
use inrsettling.Base.{ℕ, ◌+◌, ◌^◌, Bool, not, ◌&&◌, List, [], ◌∷◌, if◌then◌else◌}
use inrsettling.Base.Int.{ℤ, pos, neg, ◌+ℤ◌, ◌-ℤ◌, ◌*ℤ◌, ◌/ℤ◌, leb_ℤ, ltb_ℤ, eqb_ℤ}
use inrsettling.Base.Result.{Result, ok, err, ◌>>=◌, ◌>>◌, throw_if}
use inrsettling.Base.Decimal.{Text, show_ℤ, pad_start, point_before, replicate}
use inrsettling.Money.Amount.{
  Currency, Currency-discrete, same_currency, scale_of, Money, money, MoneyError,
}

abbrev pub fx_rate_scale : ℕ
fx_rate_scale = 10

abbrev pub exact_amount_scale : ℕ
exact_amount_scale = 12

-- The scale of an exact amount is the constant above.
pub record ExactAmount : Type 0 where
  pub currency : Currency
  pub amount : Text

-- `quoted_at` is the time in milliseconds.
pub record FxRate : Type 0 where
  pub base : Currency
  pub quote : Currency
  pub rate_scaled : ℤ
  pub quoted_at : ℕ
  pub source : String

unfoldable pub fx_rate : Currency → Currency → ℤ → ℕ → String → Result MoneyError FxRate
fx_rate base quote rate_scaled quoted_at source =
    if leb_ℤ rate_scaled (pos 0)
    then err MoneyError.negative
    else ok (record {
      base = base;
      quote = quote;
      rate_scaled = rate_scaled;
      quoted_at = quoted_at;
      source = source;
    })

unfoldable pub format_fx_rate : FxRate → Text
format_fx_rate rate =
    point_before fx_rate_scale (pad_start (fx_rate_scale + 1) (show_ℤ rate.rate_scaled))

unfoldable pub assert_inr_right : FxRate → Result MoneyError (Unit {0})
unfolding Currency-discrete
assert_inr_right rate =
    throw_if (not (same_currency rate.quote Currency.inr)) MoneyError.currency_mismatch

unfoldable pub ceil_div : ℤ → ℤ → Result MoneyError ℤ
ceil_div a b =
    if leb_ℤ b (pos 0)
    then err MoneyError.not_an_integer
    else ok (if leb_ℤ (pos 0) a then (a +ℤ b -ℤ pos 1) /ℤ b else neg (neg a /ℤ b))

unfoldable pub floor_div : ℤ → ℤ → Result MoneyError ℤ
floor_div a b =
    if leb_ℤ b (pos 0)
    then err MoneyError.not_an_integer
    else if leb_ℤ (pos 0) a
    then ok (a /ℤ b)
    else ceil_div (neg a) b >>= λ q. ok (neg q)

abbrev pub power_of_ten : ℕ → ℤ
power_of_ten k = pos (10 ^ k)

-- The remainder is in minor units; it is put at twelve places, rounded half up.
unfoldable pub remainder_as_exact_amount : Currency → ℤ → ℤ → ℤ → Result MoneyError ExactAmount
remainder_as_exact_amount currency num den minor_units_per_major = do
  let scaled = num *ℤ power_of_ten exact_amount_scale
  let full = den *ℤ minor_units_per_major
  let doubled = pos 2 *ℤ scaled +ℤ full
  units ← floor_div doubled (pos 2 *ℤ full)
  let digits = pad_start (exact_amount_scale + 1) (show_ℤ units)
  ok (record { currency = currency; amount = point_before exact_amount_scale digits })

unfoldable pub zero_residual : Currency → ExactAmount
zero_residual currency = record {
  currency = currency;
  amount = b'0' ∷ b'.' ∷ replicate exact_amount_scale b'0';
}

-- Both conversions carry the same fields.
pub record Conversion : Type 0 where
  pub recipient_amount : Money
  pub funding_amount : Money
  pub rounding_residual : ExactAmount
  pub rate : FxRate

unfoldable pub residual : Currency → ℤ → ℤ → ℤ → Result MoneyError ExactAmount
unfolding zero_residual
residual currency num den minor_units_per_major =
    if eqb_ℤ num (pos 0)
    then ok (zero_residual currency)
    else remainder_as_exact_amount currency num den minor_units_per_major

unfoldable pub recipient_numerator : Currency → ℤ → ℤ
recipient_numerator funding minor_units =
    minor_units *ℤ power_of_ten (scale_of funding) *ℤ power_of_ten fx_rate_scale

unfoldable pub recipient_denominator : FxRate → ℤ
recipient_denominator rate = rate.rate_scaled *ℤ power_of_ten (scale_of Currency.inr)

-- The funding that an exact recipient amount takes, rounded up.
unfoldable pub funding_for_recipient : Money → FxRate → Result MoneyError Conversion
unfolding assert_inr_right Currency-discrete
funding_for_recipient recipient rate = do
  assert_inr_right rate
  throw_if (not (same_currency recipient.currency Currency.inr)) MoneyError.currency_mismatch
  throw_if (ltb_ℤ recipient.minor_units (pos 0)) MoneyError.negative
  let numerator = recipient_numerator rate.base recipient.minor_units
  let denominator = recipient_denominator rate
  charged ← ceil_div numerator denominator
  exact ←
      residual rate.base (charged *ℤ denominator -ℤ numerator) denominator
        (power_of_ten (scale_of rate.base))
  ok (record {
    recipient_amount = recipient;
    funding_amount = money rate.base charged;
    rounding_residual = exact;
    rate = rate;
  })

unfoldable pub verify_recipient_first : Conversion → Bool
verify_recipient_first c =
    let numerator = recipient_numerator c.funding_amount.currency c.recipient_amount.minor_units in
    let denominator = recipient_denominator c.rate in
    let charged = c.funding_amount.minor_units in
    leb_ℤ numerator (charged *ℤ denominator) && ltb_ℤ ((charged -ℤ pos 1) *ℤ denominator) numerator

unfoldable pub source_numerator : ℤ → FxRate → ℤ
source_numerator minor_units rate =
    minor_units *ℤ rate.rate_scaled *ℤ power_of_ten (scale_of Currency.inr)

unfoldable pub source_denominator : Currency → ℤ
source_denominator funding = power_of_ten (scale_of funding) *ℤ power_of_ten fx_rate_scale

-- The recipient amount that an exact funding amount covers, rounded down.
unfoldable pub recipient_for_funding : Money → FxRate → Result MoneyError Conversion
unfolding assert_inr_right Currency-discrete
recipient_for_funding funding rate = do
  assert_inr_right rate
  throw_if (not (same_currency funding.currency rate.base)) MoneyError.currency_mismatch
  throw_if (ltb_ℤ funding.minor_units (pos 0)) MoneyError.negative
  let numerator = source_numerator funding.minor_units rate
  let denominator = source_denominator funding.currency
  received ← floor_div numerator denominator
  exact ←
      residual Currency.inr (numerator -ℤ received *ℤ denominator) denominator
        (power_of_ten (scale_of Currency.inr))
  ok (record {
    recipient_amount = money Currency.inr received;
    funding_amount = funding;
    rounding_residual = exact;
    rate = rate;
  })

unfoldable pub verify_source_first : Conversion → Bool
verify_source_first c =
    let numerator = source_numerator c.funding_amount.minor_units c.rate in
    let denominator = source_denominator c.funding_amount.currency in
    let received = c.recipient_amount.minor_units in
    leb_ℤ (received *ℤ denominator) numerator
    && ltb_ℤ numerator ((received +ℤ pos 1) *ℤ denominator)

pub record FeeComponent : Type 0 where
  pub code : String
  pub label : String
  pub amount : Money

unfoldable pub fees_onto : Currency → ℤ → List FeeComponent → Result MoneyError Money
unfolding Currency-discrete
fees_onto currency total [] = ok (money currency total)
fees_onto currency total (fee ∷ fees) =
    if same_currency fee.amount.currency currency
    then fees_onto currency (total +ℤ fee.amount.minor_units) fees
    else err MoneyError.currency_mismatch

unfoldable pub total_fees : Currency → List FeeComponent → Result MoneyError Money
unfolding fees_onto
total_fees currency fees = fees_onto currency (pos 0) fees
