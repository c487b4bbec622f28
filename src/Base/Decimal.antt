-- ===== src/Base/Decimal.antt =====
-- Decimal text, as lists of character codes: `toString`, `padStart` and `slice` of the source.
use Prim.Native.Char.{code}
use Prim.Native.String.{String}
use Prim.Native.Nat.{ℕ, zero, suc, ◌+◌, ◌-◌, ◌/◌, ◌%◌}
use mathlib.Core.List.{List, [], ◌∷◌, ◌++◌}
use inrsettling.Base.Tests.{◌==◌, if◌then◌else◌}
use inrsettling.Base.Lists.{length}
use inrsettling.Base.Int.{ℤ, pos, negsuc}

abbrev pub Text : Type 0
Text = List ℕ

-- The characters of a text of the source.
abbrev pub codes : String → Text
codes String.[] = []
codes (String.◌∷◌ c s) = code c ∷ codes s

-- The digits of a number, the last one first; one unit of fuel for each digit.
unfoldable pub digits_from : ℕ → ℕ → Text
digits_from zero n = []
digits_from (suc fuel) n =
    let rest = digits_from fuel (n / 10) in (b'0' + n % 10) ∷ (if n / 10 == 0 then [] else rest)

unfoldable pub reverse_onto : Text → Text → Text
reverse_onto [] out = out
reverse_onto (c ∷ cs) out = reverse_onto cs (c ∷ out)

-- `n.toString()`: a number has at most as many digits as its successor.
unfoldable pub show_ℕ : ℕ → Text
unfolding digits_from reverse_onto
show_ℕ n = reverse_onto (digits_from (suc n) n) []

unfoldable pub show_ℤ : ℤ → Text
unfolding show_ℕ
show_ℤ (pos n) = show_ℕ n
show_ℤ (negsuc n) = b'-' ∷ show_ℕ (suc n)

abbrev pub replicate : ℕ → ℕ → Text
replicate zero c = []
replicate (suc n) c = c ∷ replicate n c

-- `s.padStart(width, '0')`
unfoldable pub pad_start : ℕ → Text → Text
pad_start width s = replicate (width - length s) b'0' ++ s

abbrev pub take : ℕ → Text → Text
take zero s = []
take (suc n) [] = []
take (suc n) (c ∷ s) = c ∷ take n s

abbrev pub drop : ℕ → Text → Text
drop zero s = s
drop (suc n) [] = []
drop (suc n) (c ∷ s) = drop n s

-- `${s.slice(0, -scale)}.${s.slice(-scale)}`
unfoldable pub point_before : ℕ → Text → Text
point_before scale s = let whole = length s - scale in take whole s ++ (b'.' ∷ drop whole s)
