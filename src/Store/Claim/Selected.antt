-- ===== src/Store/Claim/Selected.antt =====
-- What holds of the rows that a statement selects.
use jungle_wager_engine.Base.{
  ℕ, suc, zero, Bool, true, ◌≡◌, arith, List, [], ◌∷◌, All, pointwise, find, some, take, Bool-cases,
  inl, inr,
}
use jungle_wager_engine.Store.Claim.{insert_sorted, select}

module _ {A : Type 0} (before : A → A → Bool) (P : A → Type 0) where
  insert_sorted-All : (x : A) (ys : List A) → P x → All P ys → All P (insert_sorted before x ys)
  unfolding insert_sorted
  insert_sorted-All x [] px all = (px, tt)
  insert_sorted-All x (y ∷ ys) px (py, all) = elim (Bool-cases (before x y)) [
    | inl first ↦ rw first (px, (py, all))
    | inr later ↦ rw later (py, insert_sorted-All x ys px all)
  ]

  pub select-All :
      (p : A → Bool) (rows : List A)
      → All (λ r. p r ≡ true → P r) rows
      → All P (select before p rows)
  unfolding select
  select-All p [] all = tt
  select-All p (r ∷ rows) (here_, all) = elim (Bool-cases (p r)) [
    | inl chosen ↦
        rw chosen
          (insert_sorted-All r (select before p rows) (here_ chosen) (select-All p rows all))
    | inr left ↦ rw left (select-All p rows all)
  ]

pub take-All :
    {A : Type 0} (P : A → Type 0) (n : ℕ) (rows : List A) → All P rows → All P (take n rows)
take-All P zero rows all = tt
take-All P (suc n) [] all = tt
take-All P (suc n) (r ∷ rows) (p, all) = (p, take-All P n rows all)

-- Whatever a row of the list satisfies, some row is found to satisfy.
module _ {A : Type 0} where
  abbrev pub Finds : List A → A → Type 0
  Finds rows x = (q : A → Bool) → q x ≡ true → (y : A) × (find q rows ≡ some y) × (q y ≡ true)

  found_later : (x : A) (xs : List A) (y : A) → Finds xs y → Finds (x ∷ xs) y
  unfolding find
  found_later x xs y finds q h = elim (Bool-cases (q x)) [
    | inl here ↦ (x, ground arith, here)
    | inr later ↦ let (z, there_, holds) = finds q h in (z, ground (arith, there_), holds)
  ]

  pub each_found : (xs : List A) → All (Finds xs) xs
  unfolding find
  each_found [] = tt
  each_found (x ∷ xs) = (
    (λ q h. (x, ground arith, h)),
    pointwise (Finds xs) (Finds (x ∷ xs)) xs (λ y finds. found_later x xs y finds) (each_found xs),
  )
