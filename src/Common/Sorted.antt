-- ===== src/Common/Sorted.antt =====
-- `order_by` of a query: a stable insertion sort by a Boolean order, and its last row.
use mathlib.Core.Path.{◌≡◌, refl, subst}
use mathlib.Core.Bool.{Bool, true, false}
use mathlib.Core.Option.{Option, none, some}
use mathlib.Core.List.{List, [], ◌∷◌, ◌++◌}
use dse_auto.Common.Tests.{if◌then◌else◌, Bool-cases}
use dse_auto.Common.Lists.{All}
use mathlib.Core.Logic.{inl, inr}

module _ {ℓ} {A : Type ℓ} (le : A → A → Bool) where
  unfoldable pub insert : A → List A → List A
  insert x [] = x ∷ []
  insert x (y ∷ ys) = if le x y then x ∷ y ∷ ys else y ∷ insert x ys

  unfoldable pub order_by : List A → List A
  order_by [] = []
  order_by (x ∷ xs) = insert x (order_by xs)

  insert-append :
      (x e : A) (ys : List A) → le x e ≡ true → insert x (ys ++ e ∷ []) ≡ insert x ys ++ e ∷ []
  unfolding insert
  insert-append x e [] h = rw h
  insert-append x e (y ∷ ys) h = elim (Bool-cases (le x y)) [
    | inl first ↦ rw first
    | inr later ↦ rw later (rw (insert-append x e ys h))
  ]

  -- A row that comes after all others is last.
  pub order_by-append :
      (e : A) (xs : List A)
      → All (λ x. le x e ≡ true) xs
      → order_by (xs ++ e ∷ []) ≡ order_by xs ++ e ∷ []
  unfolding order_by insert
  order_by-append e [] h = refl
  order_by-append e (x ∷ xs) h = rw (order_by-append e xs h.1) (insert-append x e (order_by xs) h.0)

  All-insert {κ} : (P : A → Type κ) (x : A) (ys : List A) → All P (insert x ys) → P x × All P ys
  unfolding insert
  All-insert P x [] h = h
  All-insert P x (y ∷ ys) h =
      (elim (le x y)
          as (λ b. All P (if b then x ∷ y ∷ ys else y ∷ insert x ys) → P x × All P (y ∷ ys)) [
            | true ↦ λ g. g
            | false ↦ λ g. let (px, rest) = All-insert P x ys g.1 in (px, (g.0, rest))
          ])
        h

  pub All-order_by {κ} : (P : A → Type κ) (xs : List A) → All P (order_by xs) → All P xs
  unfolding order_by
  All-order_by P [] h = tt
  All-order_by P (x ∷ xs) h =
      let (px, rest) = All-insert P x (order_by xs) h in (px, All-order_by P xs rest)

module _ {ℓ} {A : Type ℓ} where
  -- The last row, or none: `order_by(….desc()).limit(1)`.
  abbrev pub last? : List A → Option A
  last? [] = none
  last? (x ∷ []) = some x
  last? (x ∷ y ∷ ys) = last? (y ∷ ys)

  -- The first row, or none: `limit(1)`.
  abbrev pub first? : List A → Option A
  first? [] = none
  first? (x ∷ xs) = some x

module _ {ℓ} {A : Type ℓ} (le : A → A → Bool) where
  insert-All {κ} : (P : A → Type κ) (x : A) (ys : List A) → P x → All P ys → All P (insert le x ys)
  unfolding insert
  insert-All P x [] px h = (px, tt)
  insert-All P x (y ∷ ys) px h =
      elim (le x y) as (λ b. All P (if b then x ∷ y ∷ ys else y ∷ insert le x ys)) [
        | true ↦ (px, h)
        | false ↦ (h.0, insert-All P x ys px h.1)
      ]

  pub order_by-All {κ} : (P : A → Type κ) (xs : List A) → All P xs → All P (order_by le xs)
  unfolding order_by
  order_by-All P [] h = tt
  order_by-All P (x ∷ xs) h = insert-All P x (order_by le xs) h.0 (order_by-All P xs h.1)

module _ {ℓ} {A : Type ℓ} where
  pub first-All {κ} : (P : A → Type κ) (xs : List A) {x : A} → All P xs → first? xs ≡ some x → P x
  first-All P [] h e = cc
  first-All P (y ∷ ys) {x} h e = subst P same h.0
    where
      same : y ≡ x
      same = cc
