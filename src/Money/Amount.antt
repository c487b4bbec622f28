-- ===== src/Money/Amount.antt =====
-- Money in minor units: packages/money/src/index.ts.
use inrsettling.Base.{ℕ, Bool, List, [], ◌∷◌, if◌then◌else◌, same}
use inrsettling.Base.Int.{ℤ, pos, ◌+ℤ◌, ◌-ℤ◌, ltb_ℤ, eqb_ℤ}
use inrsettling.Base.Result.{Result, ok, ◌>>=◌, ◌>>◌, throw_if}
use inrsettling.Base.{not}

pub data Currency : Type 0 where
  inr usd eur gbp aed sgd usdt usdc : Currency

unfoldable pub Currency-discrete : Discrete Currency
Currency-discrete = hlevel

unfoldable pub scale_of : Currency → ℕ
scale_of Currency.usdt = 6
scale_of Currency.usdc = 6
scale_of _ = 2

pub record Money : Type 0 where
  pub currency : Currency
  pub minor_units : ℤ

-- The codes of `MoneyError`; the messages are left out.
pub data MoneyError : Type 0 where
  currency_mismatch not_an_integer unknown_currency negative : MoneyError

-- Every `Currency` is a known code, so `money` does not throw.
abbrev pub money : Currency → ℤ → Money
money currency minor_units = record { currency = currency; minor_units = minor_units }

abbrev pub same_currency : Currency → Currency → Bool
unfolding Currency-discrete
same_currency a b = same Currency-discrete a b

unfoldable pub assert_same : Money → Money → Result MoneyError (Unit {0})
unfolding Currency-discrete
assert_same a b = throw_if (not (same_currency a.currency b.currency)) currency_mismatch

unfoldable pub add : Money → Money → Result MoneyError Money
unfolding assert_same
add a b = do assert_same a b; ok (money a.currency (a.minor_units +ℤ b.minor_units))

unfoldable pub subtract : Money → Money → Result MoneyError Money
unfolding assert_same
subtract a b = do assert_same a b; ok (money a.currency (a.minor_units -ℤ b.minor_units))

unfoldable pub sum_onto : Money → List Money → Result MoneyError Money
unfolding add
sum_onto acc [] = ok acc
sum_onto acc (m ∷ items) = add acc m >>= λ total. sum_onto total items

unfoldable pub sum : Currency → List Money → Result MoneyError Money
unfolding sum_onto
sum currency items = sum_onto (money currency (pos 0)) items

pub data Comparison : Type 0 where
  less equal greater : Comparison

unfoldable pub compare : Money → Money → Result MoneyError Comparison
unfolding assert_same
compare a b = do
  assert_same a b
  ok (
      if ltb_ℤ a.minor_units b.minor_units
      then less
      else if ltb_ℤ b.minor_units a.minor_units
      then greater
      else equal)

unfoldable pub is_zero : Money → Bool
is_zero m = eqb_ℤ m.minor_units (pos 0)

unfoldable pub is_negative : Money → Bool
is_negative m = ltb_ℤ m.minor_units (pos 0)
