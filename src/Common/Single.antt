-- ===== src/Common/Single.antt =====
-- A table in which no two rows clash, and the replacement of a row by its identifier.
use dse_auto.Common.{
  ℕ, ◌≡◌, sym, refl, ap, ◌∙◌, ==_iff, Bool, true, false, ◌||◌, List, [], ◌∷◌, Option, none, some,
  All, Bool-cases, inl, inr, if_rule, ◌==◌, if◌then◌else◌, arith,
}
use mathlib.Core.Path.{subst}

-- The row with the identifier of the new one becomes the new one.
abbrev pub put_row {ℓ} : {A : Type ℓ} → (A → ℕ) → A → List A → List A
put_row id new [] = []
put_row id new (p ∷ ps) = (if id p == id new then new else p) ∷ put_row id new ps

-- db.get(Row, id)
abbrev pub find_row {ℓ} : {A : Type ℓ} → (A → ℕ) → ℕ → List A → Option A
find_row id key [] = none
find_row id key (r ∷ rs) = if id r == key then some r else find_row id key rs

module _ {ℓ} {A : Type ℓ} (id : A → ℕ) where
  find_row-skip :
      (key : ℕ) (x : A) (xs : List A)
      → (id x == key) ≡ false
      → find_row id key (x ∷ xs) ≡ find_row id key xs
  find_row-skip key x xs other = ap (λ b. if b then some x else find_row id key xs) other

  find_row-front :
      (key : ℕ) (x : A) (xs : List A) → (id x == key) ≡ true → find_row id key (x ∷ xs) ≡ some x
  find_row-front key x xs same = ap (λ b. if b then some x else find_row id key xs) same

  -- A row that is replaced is found.
  pub find_row-put :
      (new : A) (xs : List A) {old : A}
      → find_row id (id new) xs ≡ some old
      → find_row id (id new) (put_row id new xs) ≡ some new
  find_row-put new [] h = absurd (ground arith)
  find_row-put new (x ∷ xs) h = elim (Bool-cases (id x == id new)) [
    | inl same ↦
        ap (λ b. find_row id (id new) ((if b then new else x) ∷ put_row id new xs)) same
        ∙ find_row-front (id new) new (put_row id new xs) ((==_iff (id new) (id new)).1 refl)
    | inr other ↦
        ap (λ b. find_row id (id new) ((if b then new else x) ∷ put_row id new xs)) other
        ∙ find_row-skip (id new) x (put_row id new xs) other
        ∙ find_row-put new xs (sym (find_row-skip (id new) x xs other) ∙ h)
  ]

  -- Every other row stays as it was.
  pub find_row-put_other :
      (key : ℕ) (new : A) (xs : List A)
      → (id new == key) ≡ false
      → find_row id key (put_row id new xs) ≡ find_row id key xs
  find_row-put_other key new [] apart = refl
  find_row-put_other key new (x ∷ xs) apart = elim (Bool-cases (id x == id new)) [
    | inl same ↦
        ap (λ b. find_row id key ((if b then new else x) ∷ put_row id new xs)) same
        ∙ find_row-skip key new (put_row id new xs) apart
        ∙ find_row-put_other key new xs apart
        ∙ sym
            (find_row-skip key x xs (ap (λ n. n == key) ((==_iff (id x) (id new)).0 same) ∙ apart))
    | inr other ↦
        ap (λ b. find_row id key ((if b then new else x) ∷ put_row id new xs)) other
        ∙ ap (λ o. if id x == key then some x else o) (find_row-put_other key new xs apart)
  ]

module _ {ℓ} {A : Type ℓ} (id : A → ℕ) (rival : A → A → Bool) where
  -- Two rows with one identifier, or two rivals.
  abbrev pub clash_by : A → A → Bool
  clash_by x y = id x == id y || rival x y

  -- No two rows clash.
  abbrev pub IsSingleBy : List A → Type 0
  IsSingleBy [] = Unit
  IsSingleBy (x ∷ xs) = All (λ y. clash_by x y ≡ false) xs × IsSingleBy xs

  -- The new row clashes with no row but the one that it replaces.
  abbrev pub FitsBy : A → List A → Type 0
  FitsBy new = All (λ y. (id y == id new) ≡ false → clash_by new y ≡ false)

  put-apart :
      (x new : A) (ss : List A)
      → clash_by x new ≡ false
      → All (λ y. clash_by x y ≡ false) ss
      → All (λ y. clash_by x y ≡ false) (put_row id new ss)
  put-apart x new [] c h = tt
  put-apart x new (y ∷ ss) c h = (
    if_rule (λ z. clash_by x z ≡ false) (id y == id new) new y (λ _. c) (λ _. h.0),
    put-apart x new ss c h.1,
  )

  put-others :
      (x new : A) (ss : List A)
      → (id x == id new) ≡ true
      → All (λ y. clash_by x y ≡ false) ss
      → FitsBy new ss
      → All (λ y. clash_by new y ≡ false) (put_row id new ss)
  put-others x new [] same h fits = tt
  put-others x new (y ∷ ss) same h fits = (
    if_rule (λ z. clash_by new z ≡ false) (id y == id new) new y
        (λ again. absurd (two_ids again (h.0))) (λ other. fits.0 other),
    put-others x new ss same h.1 fits.1,
  )
    where
      two_ids : (id y == id new) ≡ true → clash_by x y ≡ false → ⊥
      two_ids again apart = ground arith

  module _ (rival_symm : (x y : A) → rival x y ≡ rival y x) where
    clash_symm : (x y : A) → clash_by x y ≡ false → clash_by y x ≡ false
    clash_symm x y h = ground (arith, rival_symm x y)

    pub put-IsSingleBy :
        (new : A) (ss : List A) → IsSingleBy ss → FitsBy new ss → IsSingleBy (put_row id new ss)
    put-IsSingleBy new [] h fits = tt
    put-IsSingleBy new (x ∷ ss) h fits = elim (Bool-cases (id x == id new)) [
      | inl here ↦
          subst (λ b. IsSingleBy ((if b then new else x) ∷ put_row id new ss)) (sym here)
            (put-others x new ss here h.0 fits.1, put-IsSingleBy new ss h.1 fits.1)
      | inr there ↦
          subst (λ b. IsSingleBy ((if b then new else x) ∷ put_row id new ss)) (sym there)
            (
              put-apart x new ss (clash_symm new x (fits.0 there)) h.0,
              put-IsSingleBy new ss h.1 fits.1,
            )
    ]

    pub found-All :
        (P : A → Type 0) (key : ℕ) (c : A) (ss : List A)
        → All P ss
        → find_row id key ss ≡ some c
        → P c
    found-All P key c [] h = λ e. absurd (ground arith)
    found-All P key c (x ∷ ss) h =
        if_rule (λ o. o ≡ some c → P c) (id x == key) (some x) (find_row id key ss)
          (λ _ e. subst P (the_row e) h.0) (λ _ e. found-All P key c ss h.1 e)
      where
        the_row : some x ≡ some c → x ≡ c
        the_row e = cc

    -- A row of the table clashes with no other row.
    pub found-FitsBy :
        (key : ℕ) (c : A) (ss : List A) → IsSingleBy ss → find_row id key ss ≡ some c → FitsBy c ss
    found-FitsBy key c [] h = λ _. tt
    found-FitsBy key c (x ∷ ss) h =
        if_rule (λ o. o ≡ some c → FitsBy c (x ∷ ss)) (id x == key) (some x) (find_row id key ss)
          (λ _ e.
            subst (λ z. FitsBy z (x ∷ ss)) (the_row e)
              (λ other. absurd (ground arith), weaken x ss h.0))
          (λ _ e. (
            λ _. clash_symm x c (found-All (λ y. clash_by x y ≡ false) key c ss h.0 e),
            found-FitsBy key c ss h.1 e,
          ))
      where
        the_row : some x ≡ some c → x ≡ c
        the_row e = cc

        weaken : (z : A) (l : List A) → All (λ y. clash_by z y ≡ false) l → FitsBy z l
        weaken z [] a = tt
        weaken z (y ∷ l) a = (λ _. a.0, weaken z l a.1)
