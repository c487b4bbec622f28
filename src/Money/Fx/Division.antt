-- ===== src/Money/Fx/Division.antt =====
-- Division rounded up and down, on every sign (packages/money/src/fx.ts).
use inrsettling.Base.{ℕ, suc, ◌+◌, ◌-◌, ◌*◌, ◌/◌, ◌≤◌, ◌<◌, ◌≡◌, refl, arith, ap}
use inrsettling.Base.Int.{
  ℤ, pos, negsuc, pos_part, neg_part, neg, ◌+ℤ◌, ◌-ℤ◌, ◌*ℤ◌, ◌/ℤ◌, ◌≤ℤ◌, ◌<ℤ◌, -ℤ_parts, +ℤ_parts,
}
use inrsettling.Base.Result.{ok}
use inrsettling.Money.Fx.Defs.{ceil_div, floor_div}

div_bounds : (n m : ℕ) → 0 < m → (n / m * m ≤ n) × (n < n / m * m + m)
div_bounds n m h = grind arith

-- The parts of a product with a natural number.
pub *ℤ_parts :
    (a : ℤ) (m : ℕ)
    → pos_part (a *ℤ pos m) + neg_part a * m ≡ neg_part (a *ℤ pos m) + pos_part a * m
unfolding ◌*ℤ◌
*ℤ_parts a m = ground arith

ceil_bounds : (n m : ℕ) → 0 < m → let q = (n + m - 1) / m in (n ≤ q * m) × (q * m < n + m)
ceil_bounds n m h = let (low, high) = div_bounds (n + m - 1) m h in (omega arith, omega arith)

pred_sum : (n m : ℕ) → 0 < m → pos n +ℤ pos m -ℤ pos 1 ≡ pos (n + m - 1)
unfolding ◌+ℤ◌ ◌-ℤ◌
pred_sum n m h = ground arith

ceil_quotient : ℤ → ℕ → ℤ
ceil_quotient (pos n) m = pos ((n + m - 1) / m)
ceil_quotient (negsuc n) m = neg (pos (suc n / m))

floor_quotient : ℤ → ℕ → ℤ
floor_quotient (pos n) m = pos (n / m)
floor_quotient (negsuc n) m = neg (pos ((suc n + m - 1) / m))

-- The next quotient down, or up, by its parts.
pred_parts :
    (q : ℤ) (m : ℕ)
    → pos_part ((q -ℤ pos 1) *ℤ pos m) + neg_part (q *ℤ pos m) + m
      ≡ neg_part ((q -ℤ pos 1) *ℤ pos m) + pos_part (q *ℤ pos m)
pred_parts q m =
    omega (arith, *ℤ_parts q m, *ℤ_parts (q -ℤ pos 1) m, ap (λ (t : ℕ). t * m) (-ℤ_parts q (pos 1)))

suc_parts :
    (q : ℤ) (m : ℕ)
    → pos_part ((q +ℤ pos 1) *ℤ pos m) + neg_part (q *ℤ pos m)
      ≡ neg_part ((q +ℤ pos 1) *ℤ pos m) + pos_part (q *ℤ pos m) + m
suc_parts q m =
    omega (arith, *ℤ_parts q m, *ℤ_parts (q +ℤ pos 1) m, ap (λ (t : ℕ). t * m) (+ℤ_parts q (pos 1)))

abbrev pub IsCeil : ℤ → ℤ → ℕ → Type 0
IsCeil q a m = (a ≤ℤ q *ℤ pos m) × ((q -ℤ pos 1) *ℤ pos m <ℤ a)

abbrev pub IsFloor : ℤ → ℤ → ℕ → Type 0
IsFloor q a m = (q *ℤ pos m ≤ℤ a) × (a <ℤ (q +ℤ pos 1) *ℤ pos m)

neg_mul : (k m : ℕ) → pos_part (neg (pos k) *ℤ pos m) + k * m ≡ neg_part (neg (pos k) *ℤ pos m)
unfolding ◌*ℤ◌ neg
neg_mul k m = ground arith

pos_mul : (k m : ℕ) → pos_part (pos k *ℤ pos m) ≡ neg_part (pos k *ℤ pos m) + k * m
unfolding ◌*ℤ◌
pos_mul k m = ground arith

ceil_quotient-IsCeil : (a : ℤ) (m : ℕ) → 0 < m → IsCeil (ceil_quotient a m) a m
unfolding ceil_quotient
ceil_quotient-IsCeil (pos n) m h =
    let q = (n + m - 1) / m in omega (arith, ceil_bounds n m h, pos_mul q m, pred_parts (pos q) m)
ceil_quotient-IsCeil (negsuc n) m h =
    let q = suc n / m in
    omega (arith, div_bounds (suc n) m h, neg_mul q m, pred_parts (neg (pos q)) m)

floor_quotient-IsFloor : (a : ℤ) (m : ℕ) → 0 < m → IsFloor (floor_quotient a m) a m
unfolding floor_quotient
floor_quotient-IsFloor (pos n) m h =
    let q = n / m in omega (arith, div_bounds n m h, pos_mul q m, suc_parts (pos q) m)
floor_quotient-IsFloor (negsuc n) m h =
    let q = (suc n + m - 1) / m in
    omega (arith, ceil_bounds (suc n) m h, neg_mul q m, suc_parts (neg (pos q)) m)

neg_negsuc : (n : ℕ) → neg (negsuc n) ≡ pos (suc n)
unfolding neg
neg_negsuc n = ground arith

pos_div : (n m : ℕ) → pos n /ℤ pos m ≡ pos (n / m)
unfolding ◌/ℤ◌
pos_div n m = refl

ceil_div-pos : (n m : ℕ) → 0 < m → ceil_div (pos n) (pos m) ≡ ok (pos ((n + m - 1) / m))
unfolding ceil_div
ceil_div-pos n m h = ground (arith, pred_sum n m h, pos_div (n + m - 1) m)

ceil_div-quotient : (a : ℤ) (m : ℕ) → 0 < m → ceil_div a (pos m) ≡ ok (ceil_quotient a m)
unfolding ceil_quotient
ceil_div-quotient (pos n) m h = ceil_div-pos n m h
ceil_div-quotient (negsuc n) m h =
    unfold ceil_div in ground (arith, neg_negsuc n, pos_div (suc n) m)

floor_div-quotient : (a : ℤ) (m : ℕ) → 0 < m → floor_div a (pos m) ≡ ok (floor_quotient a m)
unfolding floor_div floor_quotient
floor_div-quotient (pos n) m h = ground (arith, pos_div n m)
floor_div-quotient (negsuc n) m h = ground (arith, neg_negsuc n, ceil_div-pos (suc n) m)

-- Rounding up, on either sign: the least integer whose product with the divisor is not below `a`.
pub ceil_div_lem : (a : ℤ) (m : ℕ) → 0 < m → (q : ℤ) × (ceil_div a (pos m) ≡ ok q) × IsCeil q a m
ceil_div_lem a m h = (ceil_quotient a m, ceil_div-quotient a m h, ceil_quotient-IsCeil a m h)

-- Rounding down, on either sign.
pub floor_div_lem : (a : ℤ) (m : ℕ) → 0 < m → (q : ℤ) × (floor_div a (pos m) ≡ ok q) × IsFloor q a m
floor_div_lem a m h = (floor_quotient a m, floor_div-quotient a m h, floor_quotient-IsFloor a m h)
