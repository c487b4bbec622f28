-- ===== src/Payout/Service/Soundness.antt =====
-- Each write of the payout service keeps the attempts of every settlement in order.
use Prim.Native.String.{String}
use text.Mathlib.Text.{◌==◌ as str_eq}
use text.Mathlib.TextEquality.{eq_iff}
use mathlib.Core.List.{Memᴰ}
use inrsettling.Base.{
  suc, ◌≡◌, ◌≢◌, refl, sym, ap, ◌∙◌, subst, inl, inr, Bool, true, false, Bool-cases, List, [], ◌∷◌,
  map, if◌then◌else◌,
}
use inrsettling.Base.Lists.{filter, length, All, All-map, All-filter, All-Memᴰ}
use inrsettling.Payout.Service.Defs.{Attempt, attempts_of}
use inrsettling.Payout.Service.Moves.{SameIdentity}
use inrsettling.Payout.Service.Order.{IsGivenUp, InOrder, IsDistinct, filter-IsDistinct}

pub record IsSound (attempts : List Attempt) : Type 0 where
  pub distinct : IsDistinct attempts
  pub ordered : (settlement_id : String) → InOrder (attempts_of settlement_id attempts)

-- Two attempts with one id are one attempt.
IsDistinct-unique :
    (a b : Attempt) (xs : List Attempt)
    → IsDistinct xs
    → Memᴰ a xs
    → Memᴰ b xs
    → b.id ≡ a.id
    → b ≡ a
IsDistinct-unique a b [] h m k e = elim m [ ]
IsDistinct-unique a b (x ∷ xs) h (Memᴰ.head p) (Memᴰ.head q) e = q ∙ sym p
IsDistinct-unique a b (x ∷ xs) h (Memᴰ.head p) (Memᴰ.tail k) e =
    absurd (All-Memᴰ (λ c. c.id ≢ x.id) b xs k h.0 (e ∙ ap (λ c. c.id) p))
IsDistinct-unique a b (x ∷ xs) h (Memᴰ.tail m) (Memᴰ.head q) e =
    absurd (All-Memᴰ (λ c. c.id ≢ x.id) a xs m h.0 (sym e ∙ ap (λ c. c.id) q))
IsDistinct-unique a b (x ∷ xs) h (Memᴰ.tail m) (Memᴰ.tail k) e = IsDistinct-unique a b xs h.1 m k e

All-of {κ} :
    {P : Attempt → Type κ} (xs : List Attempt) → ((a : Attempt) → Memᴰ a xs → P a) → All P xs
All-of [] f = tt
All-of (x ∷ xs) f = (f x (Memᴰ.head refl), All-of xs (λ a m. f a (Memᴰ.tail m)))

pub Memᴰ_of_filter :
    (p : Attempt → Bool) (a : Attempt) (xs : List Attempt) → Memᴰ a (filter p xs) → Memᴰ a xs
Memᴰ_of_filter p a [] m = elim m [ ]
Memᴰ_of_filter p a (x ∷ xs) m = elim (Bool-cases (p x)) [
  | inl y ↦ elim (rw y at m) [
    | Memᴰ.head e ↦ Memᴰ.head e
    | Memᴰ.tail k ↦ Memᴰ.tail (Memᴰ_of_filter p a xs k)
  ]
  | inr n ↦ Memᴰ.tail (Memᴰ_of_filter p a xs (rw n at m))
]

apart : true ≢ false
apart e = cc

attempts_of-IsDistinct :
    (s : String) (xs : List Attempt) → IsDistinct xs → IsDistinct (attempts_of s xs)
unfolding attempts_of
attempts_of-IsDistinct s xs d = filter-IsDistinct (λ a. str_eq a.settlement_id s) xs d

pub Memᴰ_of_attempts :
    (s : String) (a : Attempt) (xs : List Attempt) → Memᴰ a (attempts_of s xs) → Memᴰ a xs
unfolding attempts_of
Memᴰ_of_attempts s a xs m = Memᴰ_of_filter (λ b. str_eq b.settlement_id s) a xs m

settlement_of :
    (s : String) (a : Attempt) (xs : List Attempt) → Memᴰ a (attempts_of s xs) → a.settlement_id ≡ s
unfolding attempts_of
settlement_of s a xs m = (eq_iff a.settlement_id s).0 (
    All-Memᴰ (λ b. str_eq b.settlement_id s ≡ true) a (attempts_of s xs) m
      (All-filter (λ b. str_eq b.settlement_id s) xs))

listed_first :
    (s : String) (xs : List Attempt) {a : Attempt} {rest : List Attempt}
    → attempts_of s xs ≡ a ∷ rest
    → Memᴰ a xs
listed_first s xs {a} {rest} e = Memᴰ_of_attempts s a xs (subst (Memᴰ a) (sym e) (Memᴰ.head refl))

module _ (id : String) (change : Attempt → Attempt)
    (keeps : (a : Attempt) → SameIdentity a (change a)) where
  unfoldable pub changed : Attempt → Attempt
  changed a = if str_eq a.id id then change a else a

  changed-SameIdentity : (a : Attempt) → (changed a).id ≡ a.id
  unfolding changed
  changed-SameIdentity a = elim (Bool-cases (str_eq a.id id)) [
    | inl y ↦ rw y (keeps a).id
    | inr n ↦ rw n refl
  ]

  changed-settlement : (a : Attempt) → (changed a).settlement_id ≡ a.settlement_id
  unfolding changed
  changed-settlement a = elim (Bool-cases (str_eq a.id id)) [
    | inl y ↦ rw y (keeps a).settlement_id
    | inr n ↦ rw n refl
  ]

  pub map-IsDistinct : (xs : List Attempt) → IsDistinct xs → IsDistinct (map changed xs)
  map-IsDistinct [] h = tt
  map-IsDistinct (x ∷ xs) h = (map-ids x xs h.0, map-IsDistinct xs h.1)
    where
      map-ids :
          (x : Attempt) (ys : List Attempt)
          → All (λ b. b.id ≢ x.id) ys
          → All (λ b. b.id ≢ (changed x).id) (map changed ys)
      map-ids x [] h = tt
      map-ids x (y ∷ ys) h =
          (λ e. h.0 (sym (changed-SameIdentity y) ∙ e ∙ changed-SameIdentity x), map-ids x ys h.1)

  -- The attempts of a settlement after the write are those before it, each written.
  attempts_of-map :
      (s : String) (xs : List Attempt)
      → attempts_of s (map changed xs) ≡ map changed (attempts_of s xs)
  unfolding attempts_of
  attempts_of-map s [] = refl
  attempts_of-map s (x ∷ xs) = elim (Bool-cases (str_eq x.settlement_id s)) [
    | inl y ↦
        rw (ap (λ c. str_eq c s) (changed-settlement x) ∙ y, y)
          (ap (λ ys. changed x ∷ ys) (attempts_of-map s xs))
    | inr n ↦ rw (ap (λ c. str_eq c s) (changed-settlement x) ∙ n, n) (attempts_of-map s xs)
  ]

  changed_ne : (a : Attempt) → a.id ≢ id → changed a ≡ a
  unfolding changed
  changed_ne a ne = elim (Bool-cases (str_eq a.id id)) [
    | inl y ↦ absurd (ne ((eq_iff a.id id).0 y))
    | inr n ↦ rw n refl
  ]

  map-changed_ne : (xs : List Attempt) → All (λ b. b.id ≢ id) xs → map changed xs ≡ xs
  map-changed_ne [] h = refl
  map-changed_ne (x ∷ xs) h =
      ap (λ y. y ∷ map changed xs) (changed_ne x h.0) ∙ ap (λ ys. x ∷ ys) (map-changed_ne xs h.1)

  changed_self : (a : Attempt) → a.id ≡ id → changed a ≡ change a
  unfolding changed
  changed_self a e = rw ((eq_iff a.id id).1 e) refl

  -- The latest attempt, written, leaves its settlement's attempts in order.
  changed-InOrder :
      (a : Attempt) (rest : List Attempt)
      → a.id ≡ id
      → IsDistinct (a ∷ rest)
      → InOrder (a ∷ rest)
      → InOrder (map changed (a ∷ rest))
  changed-InOrder a rest e d h =
      let (number, up, order) = h in
      let others : All (λ b. b.id ≢ id) rest = All-map rest (λ b ne q. ne (q ∙ sym e)) d.0 in
      let unchanged = map-changed_ne rest others in
      let first = changed_self a e in
      (
        ap (λ c. c.attempt_number) first
            ∙ (keeps a).attempt_number
            ∙ number
            ∙ ap (λ ys. suc (length ys)) (sym unchanged),
        subst (All IsGivenUp) (sym unchanged) up,
        subst InOrder (sym unchanged) order,
      )

  -- Where the id is the latest's of one settlement, all stay in order.
  pub map-InOrder :
      (xs : List Attempt) (s s' : String) (a : Attempt) (rest : List Attempt)
      → IsDistinct xs
      → attempts_of s xs ≡ a ∷ rest
      → a.id ≡ id
      → InOrder (attempts_of s' xs)
      → InOrder (attempts_of s' (map changed xs))
  map-InOrder xs s s' a rest d e same h = elim (Bool-cases (str_eq s' s)) [
    | inl y ↦
        let listed : attempts_of s' xs ≡ a ∷ rest =
          subst (λ x. attempts_of x xs ≡ a ∷ rest) (sym ((eq_iff s' s).0 y)) e in
        subst InOrder (sym (attempts_of-map s' xs ∙ ap (map changed) listed)) (
          changed-InOrder a rest same (subst IsDistinct listed (attempts_of-IsDistinct s' xs d))
            (subst InOrder listed h))
    | inr n ↦
        let others : All (λ b. b.id ≢ id) (attempts_of s' xs) = All-of (attempts_of s' xs) (λ b m q.
          let is_a =
            IsDistinct-unique a b xs d (listed_first s xs e) (Memᴰ_of_attempts s' b xs m)
              (q ∙ sym same) in
          let there = settlement_of s' b xs m in
          let here = settlement_of s a xs (subst (Memᴰ a) (sym e) (Memᴰ.head refl)) in
          apart (sym ((eq_iff s' s).1 (sym there ∙ ap (λ c. c.settlement_id) is_a ∙ here)) ∙ n)) in
        subst InOrder (sym (attempts_of-map s' xs ∙ map-changed_ne (attempts_of s' xs) others)) h
  ]
