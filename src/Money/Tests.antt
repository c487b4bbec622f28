-- ===== src/Money/Tests.antt =====
-- Witnesses of the theorems on exchange rates: ninety rupees to the dollar.
use inrsettling.Base.{◌≡◌, refl, true, ◌↔◌, arith}
use inrsettling.Base.Int.{ℤ, pos, negsuc, ◌+ℤ◌, ◌-ℤ◌, ◌*ℤ◌, ◌/ℤ◌, ◌≤ℤ◌}
use inrsettling.Base.Result.{ok}
use inrsettling.Money.Amount.{Currency, Money, money, scale_of}
use inrsettling.Money.Fx.{
  FxRate, Conversion, ceil_div, floor_div, funding_for_recipient, recipient_for_funding,
  verify_recipient_first, verify_source_first, residual, recipient_numerator, recipient_denominator,
  source_numerator, source_denominator, remainder_as_exact_amount,
}
use inrsettling.Money.Fx.Division.{IsCeil, IsFloor, ceil_div_lem, floor_div_lem}
use inrsettling.Money.Fx.Rounding.{IsInrRate, funding_for_recipient_lem, recipient_for_funding_lem}
use inrsettling.Money.Fx.Adjoint.{conversions_adjoint}

abbrev ninety : FxRate
ninety = record {
  base = Currency.usd;
  quote = Currency.inr;
  rate_scaled = pos 900000000000;
  quoted_at = 0;
  source = "desk";
}

ninety-IsInrRate : IsInrRate ninety
ninety-IsInrRate = record { into_inr = refl; positive = omega arith }

-- A hundred rupees, and a dollar and twelve cents.
abbrev rupees : Money
rupees = money Currency.inr (pos 10000)

abbrev dollars : Money
dollars = money Currency.usd (pos 112)

ceil_div_lem_example : (q : ℤ) × (ceil_div (negsuc 6) (pos 2) ≡ ok q) × IsCeil q (negsuc 6) 2
ceil_div_lem_example = ceil_div_lem (negsuc 6) 2 (omega arith)

floor_div_lem_example : (q : ℤ) × (floor_div (negsuc 6) (pos 2) ≡ ok q) × IsFloor q (negsuc 6) 2
floor_div_lem_example = floor_div_lem (negsuc 6) 2 (omega arith)

funding_for_recipient_lem_example :
    (c : Conversion) × (funding_for_recipient rupees ninety ≡ ok c)
    × (c.recipient_amount ≡ rupees)
    × (c.funding_amount.currency ≡ Currency.usd)
    × (c.rate ≡ ninety)
    × (verify_recipient_first c ≡ true)
funding_for_recipient_lem_example =
    funding_for_recipient_lem rupees ninety refl (omega arith) ninety-IsInrRate

recipient_for_funding_lem_example :
    (c : Conversion) × (recipient_for_funding dollars ninety ≡ ok c)
    × (c.funding_amount ≡ dollars)
    × (c.recipient_amount.currency ≡ Currency.inr)
    × (c.rate ≡ ninety)
    × (verify_source_first c ≡ true)
recipient_for_funding_lem_example =
    recipient_for_funding_lem dollars ninety refl (omega arith) ninety-IsInrRate

conversions_adjoint_example : (pos 10000 ≤ℤ pos 10080) ↔ (pos 112 ≤ℤ pos 112)
unfolding funding_for_recipient recipient_for_funding residual ceil_div recipient_denominator ◌*ℤ◌
    scale_of ◌-ℤ◌ recipient_numerator ◌/ℤ◌ ◌+ℤ◌ remainder_as_exact_amount floor_div
    source_denominator source_numerator
conversions_adjoint_example =
    conversions_adjoint rupees dollars ninety refl (omega arith) refl (omega arith) ninety-IsInrRate
      refl refl
