-- ===== src/Base/Lists.antt =====
-- The array operations of the source: `filter`, `find`, `includes`, `length`, over native numbers.
use mathlib.Core.Logic.{inl, inr}
use Prim.Native.Nat.{ℕ, suc, ◌+◌}
use mathlib.Core.Path.{◌≡◌, refl, sym, subst}
use mathlib.Core.Bool.{Bool, true, false}
use mathlib.Core.Option.{Option, none, some}
use mathlib.Core.List.{List, [], ◌∷◌, ◌++◌, Memᴰ}
use native.Mathlib.Omega.{arith}
use inrsettling.Base.Tests.{same, if◌then◌else◌, Bool-cases, same_iff}

module _ {ℓ} {A : Type ℓ} where
  abbrev pub length : List A → ℕ
  length [] = 0
  length (x ∷ xs) = suc (length xs)

  -- `xs.filter(p)`
  abbrev pub filter : (A → Bool) → List A → List A
  filter p [] = []
  filter p (x ∷ xs) = let rest = filter p xs in if p x then x ∷ rest else rest

  -- `xs.find(p)`
  abbrev pub find : (A → Bool) → List A → Option A
  find p [] = none
  find p (x ∷ xs) = let rest = find p xs in if p x then some x else rest

  -- `xs.some(p)`
  abbrev pub any : (A → Bool) → List A → Bool
  any p [] = false
  any p (x ∷ xs) = let rest = any p xs in if p x then true else rest

  abbrev pub all : (A → Bool) → List A → Bool
  all p [] = true
  all p (x ∷ xs) = let rest = all p xs in if p x then rest else false

  -- A predicate by recursion, which the tactics read as tuples.
  abbrev pub All {κ} : (A → Type κ) → List A → Type κ
  All P [] = Unit
  All P (x ∷ xs) = P x × All P xs

  pub length-append : (xs ys : List A) → length (xs ++ ys) ≡ length xs + length ys
  length-append [] ys = omega arith
  length-append (x ∷ xs) ys = omega (arith, length-append xs ys)

-- `xs.includes(a)` on a list of members of a closed union.
abbrev pub includes {ℓ} : {A : Type ℓ} → Discrete A → List A → A → Bool
includes d xs a = any (same d a) xs

-- An item that passes the test stays in the filtered list, and all that stays passes it.
module _ {ℓ} {A : Type ℓ} where
  pub Memᴰ-filter :
      (p : A → Bool) (a : A) (xs : List A) → Memᴰ a xs → p a ≡ true → Memᴰ a (filter p xs)
  Memᴰ-filter p a [] m h = elim m [ ]
  Memᴰ-filter p a (x ∷ xs) (Memᴰ.head e) h = rw (← e) (rw h (Memᴰ.head refl))
  Memᴰ-filter p a (x ∷ xs) (Memᴰ.tail m) h = elim (Bool-cases (p x)) [
    | inl y ↦ rw y (Memᴰ.tail (Memᴰ-filter p a xs m h))
    | inr n ↦ rw n (Memᴰ-filter p a xs m h)
  ]

  pub All-filter : (p : A → Bool) (xs : List A) → All (λ a. p a ≡ true) (filter p xs)
  All-filter p [] = tt
  All-filter p (x ∷ xs) = elim (Bool-cases (p x)) [
    | inl y ↦ rw y (y, All-filter p xs)
    | inr n ↦ rw n (All-filter p xs)
  ]

  pub All-map {κ μ} :
      {P : A → Type κ} {Q : A → Type μ} (xs : List A) → ((a : A) → P a → Q a) → All P xs → All Q xs
  All-map [] f h = tt
  All-map (x ∷ xs) f h = (f x h.0, All-map xs f h.1)

  pub All-zip {κ μ ν} :
      {P : A → Type κ} {Q : A → Type μ} {R : A → Type ν} (xs : List A)
      → ((a : A) → P a → Q a → R a)
      → All P xs
      → All Q xs
      → All R xs
  All-zip [] f h k = tt
  All-zip (x ∷ xs) f h k = (f x h.0 k.0, All-zip xs f h.1 k.1)

module _ {ℓ} {A : Type ℓ} where
  pub Memᴰ-includes : (d : Discrete A) (a : A) (xs : List A) → includes d xs a ≡ true → Memᴰ a xs
  Memᴰ-includes d a [] h = cc
  Memᴰ-includes d a (x ∷ xs) h = elim (Bool-cases (same d a x)) [
    | inl y ↦ Memᴰ.head ((same_iff d a x).0 y)
    | inr n ↦ Memᴰ.tail (Memᴰ-includes d a xs (rw n at h))
  ]

  pub All-Memᴰ {κ} : (P : A → Type κ) (a : A) (xs : List A) → Memᴰ a xs → All P xs → P a
  All-Memᴰ P a [] m h = elim m [ ]
  All-Memᴰ P a (x ∷ xs) (Memᴰ.head e) h = subst P (sym e) h.0
  All-Memᴰ P a (x ∷ xs) (Memᴰ.tail m) h = All-Memᴰ P a xs m h.1

  pub Memᴰ-append_left : {a : A} (xs ys : List A) → Memᴰ a xs → Memᴰ a (xs ++ ys)
  Memᴰ-append_left [] ys m = elim m [ ]
  Memᴰ-append_left (x ∷ xs) ys (Memᴰ.head e) = Memᴰ.head e
  Memᴰ-append_left (x ∷ xs) ys (Memᴰ.tail m) = Memᴰ.tail (Memᴰ-append_left xs ys m)

  pub Memᴰ-append_right : {a : A} (xs ys : List A) → Memᴰ a ys → Memᴰ a (xs ++ ys)
  Memᴰ-append_right [] ys m = m
  Memᴰ-append_right (x ∷ xs) ys m = Memᴰ.tail (Memᴰ-append_right xs ys m)

  -- What lies in a part of `xs` satisfies what all of `xs` does.
  pub All-subset {κ} :
      (P : A → Type κ) (d : Discrete A) (xs ys : List A)
      → all (includes d xs) ys ≡ true
      → All P xs
      → All P ys
  All-subset P d xs [] h p = tt
  All-subset P d xs (y ∷ ys) h p = elim (Bool-cases (includes d xs y)) [
    | inl i ↦ (All-Memᴰ P y xs (Memᴰ-includes d y xs i) p, All-subset P d xs ys (rw i at h) p)
    | inr n ↦ absurd (ground arith)
  ]
