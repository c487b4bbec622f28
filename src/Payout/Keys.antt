-- ===== src/Payout/Keys.antt =====
-- The idempotency key of an attempt names it (`payoutIdempotencyKey` of
-- packages/domain/src/settlements/payout-attempt.ts).
use Prim.Native.String.{String}
use inrsettling.Base.{
  ℕ, zero, suc, ◌+◌, ◌-◌, ◌*◌, ◌/◌, ◌<◌, ◌≡◌, ◌≢◌, refl, sym, ap, ◌∙◌, subst, Bool-cases, inl, inr,
  some, [], ◌∷◌, ◌++◌, arith, ◌==◌, ==_iff,
}
use inrsettling.Base.Lists.{All}
use inrsettling.Base.Decimal.{Text, codes, digits_from, reverse_onto, show_ℕ}
use inrsettling.Payout.Attempt.{payout_idempotency_key, key_text}

-- The number that a text of digits stands for, the last digit first.
value : Text → ℕ
value [] = 0
value (d ∷ ds) = (d - b'0') + 10 * value ds

-- The same, the first digit first, on top of what was read already.
read_onto : ℕ → Text → ℕ
read_onto acc [] = acc
read_onto acc (d ∷ ds) = read_onto (acc * 10 + (d - b'0')) ds

read_onto-reverse_onto :
    (ds out : Text) → read_onto 0 (reverse_onto ds out) ≡ read_onto (value ds) out
unfolding reverse_onto read_onto value
read_onto-reverse_onto [] out = refl
read_onto-reverse_onto (d ∷ ds) out =
    read_onto-reverse_onto ds (d ∷ out) ∙ ap (λ n. read_onto n out) (omega arith)

value-digits_from : (fuel n : ℕ) → n < fuel → value (digits_from fuel n) ≡ n
unfolding digits_from value
value-digits_from zero n h = omega arith
value-digits_from (suc fuel) n h = elim (Bool-cases (n / 10 == 0)) [
  | inl y ↦ let e = (==_iff (n / 10) 0).0 y in rw y (omega arith)
  | inr b ↦
      let ne : n / 10 ≢ 0 = λ e. cc ((==_iff (n / 10) 0).1 e, b) in
      rw b (omega (arith, value-digits_from fuel (n / 10) (omega arith)))
]

read-show_ℕ : (n : ℕ) → read_onto 0 (show_ℕ n) ≡ n
unfolding show_ℕ read_onto
read-show_ℕ n =
    read_onto-reverse_onto (digits_from (suc n) n) [] ∙ value-digits_from (suc n) n (omega arith)

pub show_ℕ_injective : (m n : ℕ) → show_ℕ m ≡ show_ℕ n → m ≡ n
show_ℕ_injective m n h = sym (read-show_ℕ m) ∙ ap (read_onto 0) h ∙ read-show_ℕ n

digits_from-below : (fuel n : ℕ) → All (λ c. c < b':') (digits_from fuel n)
unfolding digits_from
digits_from-below zero n = tt
digits_from-below (suc fuel) n = elim (Bool-cases (n / 10 == 0)) [
  | inl y ↦ rw y (omega arith, tt)
  | inr b ↦ rw b (omega arith, digits_from-below fuel (n / 10))
]

reverse_onto-All :
    (xs out : Text)
    → All (λ c. c < b':') xs
    → All (λ c. c < b':') out
    → All (λ c. c < b':') (reverse_onto xs out)
unfolding reverse_onto
reverse_onto-All [] out h k = k
reverse_onto-All (x ∷ xs) out h k = reverse_onto-All xs (x ∷ out) h.1 (h.0, k)

show_ℕ-below : (n : ℕ) → All (λ c. c < b':') (show_ℕ n)
unfolding show_ℕ
show_ℕ-below n = reverse_onto-All (digits_from (suc n) n) [] (digits_from-below (suc n) n) tt

below_append : (x : ℕ) (xs bs : Text) → ¬ All (λ c. c < x) (xs ++ x ∷ bs)
below_append x [] bs h = omega (arith, h.0)
below_append x (a ∷ xs) bs h = below_append x xs bs h.1

-- Where neither tail holds the separator, two texts that are cut at their last one are cut alike.
split_last :
    (x : ℕ) (xs bs cs ds : Text)
    → All (λ c. c < x) bs
    → All (λ c. c < x) ds
    → xs ++ x ∷ bs ≡ cs ++ x ∷ ds
    → (xs ≡ cs) × (bs ≡ ds)
split_last x [] bs [] ds h k e = (refl, cc)
split_last x [] bs (c ∷ cs) ds h k e =
    let tail : bs ≡ cs ++ x ∷ ds = cc in
    absurd (below_append x cs ds (subst (All (λ c. c < x)) tail h))
split_last x (a ∷ xs) bs [] ds h k e =
    let tail : xs ++ x ∷ bs ≡ ds = cc in
    absurd (below_append x xs bs (subst (All (λ c. c < x)) (sym tail) k))
split_last x (a ∷ xs) bs (c ∷ cs) ds h k e =
    let (rest, tails) = split_last x xs bs cs ds h k cc in (cc, tails)

append_injective : (xs bs cs : Text) → xs ++ bs ≡ xs ++ cs → bs ≡ cs
append_injective [] bs cs e = e
append_injective (a ∷ xs) bs cs e = append_injective xs bs cs cc

key_text_injective : (s t : Text) (m n : ℕ) → key_text s m ≡ key_text t n → (s ≡ t) × (m ≡ n)
unfolding key_text
key_text_injective s t m n e =
    let (same_text, digits) =
      split_last b':' s (show_ℕ m) t (show_ℕ n) (show_ℕ-below m) (show_ℕ-below n)
        (append_injective (codes "payout:v1:") (s ++ b':' ∷ show_ℕ m) (t ++ b':' ∷ show_ℕ n) e) in
    (same_text, show_ℕ_injective m n digits)

key_of :
    (s : String) (m : ℕ) {key : Text}
    → payout_idempotency_key s m ≡ some key
    → key_text (codes s) m ≡ key
unfolding payout_idempotency_key
key_of s m {key} h = ground arith

-- Two submissions present the same key only if they are the same attempt of the same settlement
-- (INV-25): whatever the characters of the settlements' ids, colons and digits included, the ids are
-- the same text and the attempt numbers are equal.
pub payout_idempotency_key_injective :
    (s t : String) (m n : ℕ) {key : Text}
    → payout_idempotency_key s m ≡ some key
    → payout_idempotency_key t n ≡ some key
    → (codes s ≡ codes t) × (m ≡ n)
unfolding payout_idempotency_key
payout_idempotency_key_injective s t m n {key} h k =
    key_text_injective (codes s) (codes t) m n (key_of s m h ∙ sym (key_of t n k))
