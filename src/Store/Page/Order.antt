-- ===== src/Store/Page/Order.antt =====
-- What `select` yields, in an order that is total and transitive, and the part of it that follows one
-- of its elements.
use jungle_wager_engine.Base.{
  Bool, true, false, ◌&&◌, not, ◌≡◌, refl, sym, ap, arith, List, [], ◌∷◌, ◌++◌, All, pointwise,
  Bool-cases, inl, inr, if◌then◌else◌,
}
use jungle_wager_engine.Store.Claim.{insert_sorted, select}

module _ {A : Type 0} where
  -- The elements that a test accepts.
  unfoldable pub keep : (A → Bool) → List A → List A
  keep q [] = []
  keep q (x ∷ xs) = let rest = keep q xs in if q x then x ∷ rest else rest

  keep-All : (P : A → Type 0) (q : A → Bool) (xs : List A) → All P xs → All P (keep q xs)
  unfolding keep
  keep-All P q [] all = tt
  keep-All P q (x ∷ xs) (p, all) = elim (Bool-cases (q x)) [
    | inl chosen ↦ rw chosen (p, keep-All P q xs all)
    | inr left ↦ rw left (keep-All P q xs all)
  ]

  pub keep-id : (q : A → Bool) (xs : List A) → All (λ x. q x ≡ true) xs → keep q xs ≡ xs
  unfolding keep
  keep-id q [] all = refl
  keep-id q (x ∷ xs) (p, all) = ground (arith, keep-id q xs all)

  pub All-middle :
      (P : A → Type 0) (firsts : List A) (l : A) (rest : List A) → All P (firsts ++ l ∷ rest) → P l
  All-middle P [] l rest (p, all) = p
  All-middle P (f ∷ firsts) l rest (p, all) = All-middle P firsts l rest all

  module _ (before : A → A → Bool) where
    -- Each element is before those after it.
    unfoldable pub IsSorted : List A → Type 0
    IsSorted [] = Unit
    IsSorted (x ∷ xs) = All (λ y. before x y ≡ true) xs × IsSorted xs

    -- No element is after a later one, or like it.
    unfoldable pub IsStrict : List A → Type 0
    IsStrict [] = Unit
    IsStrict (x ∷ xs) = All (λ y. before y x ≡ false) xs × IsStrict xs

    -- No two elements are alike in the order.
    unfoldable pub IsDistinct : List A → Type 0
    IsDistinct [] = Unit
    IsDistinct (x ∷ xs) = All (λ y. before x y && before y x ≡ false) xs × IsDistinct xs

    module _ (P : A → Type 0) where
      insert-All : (x : A) (ys : List A) → P x → All P ys → All P (insert_sorted before x ys)
      unfolding insert_sorted
      insert-All x [] px all = (px, tt)
      insert-All x (y ∷ ys) px (py, all) = elim (Bool-cases (before x y)) [
        | inl first ↦ rw first (px, (py, all))
        | inr later ↦ rw later (py, insert-All x ys px all)
      ]

      pub select-All : (p : A → Bool) (rows : List A) → All P rows → All P (select before p rows)
      unfolding select
      select-All p [] all = tt
      select-All p (r ∷ rows) (pr, all) = elim (Bool-cases (p r)) [
        | inl chosen ↦ rw chosen (insert-All r (select before p rows) pr (select-All p rows all))
        | inr left ↦ rw left (select-All p rows all)
      ]

    module _ (total : (x y : A) → before x y ≡ false → before y x ≡ true)
        (trans : (x y z : A) → before x y ≡ true → before y z ≡ true → before x z ≡ true) where
      IsStrict-IsSorted : (xs : List A) → IsStrict xs → IsSorted xs
      unfolding IsStrict IsSorted
      IsStrict-IsSorted [] s = tt
      IsStrict-IsSorted (x ∷ xs) (all, s) =
          (pointwise _ _ xs (λ y h. total y x h) all, IsStrict-IsSorted xs s)

      insert_first :
          (x : A) (ys : List A)
          → All (λ y. before x y ≡ true) ys
          → insert_sorted before x ys ≡ x ∷ ys
      unfolding insert_sorted
      insert_first x [] all = refl
      insert_first x (y ∷ ys) (h, all) = ground arith

      insert-IsStrict :
          (x : A) (ys : List A)
          → All (λ y. before x y && before y x ≡ false) ys
          → IsStrict ys
          → IsStrict (insert_sorted before x ys)
      unfolding insert_sorted IsStrict
      insert-IsStrict x [] apart s = (tt, tt)
      insert-IsStrict x (y ∷ ys) (d, apart) (all, s) = elim (Bool-cases (before x y)) [
        | inl first ↦ rw first (
          (
            ground arith,
            pointwise _ _ ys
                (λ z h. elim (Bool-cases (before z x)) [
                  | inl bad ↦ absurd (ground (arith, trans z x y bad first))
                  | inr good ↦ good
                ])
                all,
          ),
          (all, s),
        )
        | inr later ↦
            rw later
              (insert-All (λ z. before z y ≡ false) x ys later all, insert-IsStrict x ys apart s)
      ]

      pub select-IsStrict :
          (p : A → Bool) (rows : List A) → IsDistinct rows → IsStrict (select before p rows)
      unfolding select IsDistinct IsStrict
      select-IsStrict p [] d = tt
      select-IsStrict p (r ∷ rows) (apart, d) = elim (Bool-cases (p r)) [
        | inl chosen ↦ rw chosen (
            insert-IsStrict r (select before p rows) (select-All _ p rows apart)
              (select-IsStrict p rows d))
        | inr left ↦ rw left (select-IsStrict p rows d)
      ]

      keep-insert :
          (q : A → Bool) (x : A) (ys : List A)
          → IsSorted ys
          → keep q (insert_sorted before x ys)
            ≡ (if q x then insert_sorted before x (keep q ys) else keep q ys)
      unfolding keep insert_sorted IsSorted
      keep-insert q x [] s = ground arith
      keep-insert q x (y ∷ ys) (all, s) = elim (Bool-cases (before x y)) [
        | inl first ↦
            let rest = insert_first x (keep q (y ∷ ys)) (
              keep-All (λ z. before x z ≡ true) q (y ∷ ys)
                (first, pointwise _ _ ys (λ z h. trans x y z first h) all)) in
            elim (Bool-cases (q x)) [
              | inl chosen ↦ rw (first, chosen) (sym rest)
              | inr left ↦ ground arith
            ]
        | inr later ↦ ground (arith, keep-insert q x ys s)
      ]

      -- A narrower selection is a part of a wider one.
      pub keep-select :
          (p q : A → Bool) (rows : List A)
          → IsDistinct rows
          → keep q (select before p rows) ≡ select before (λ x. p x && q x) rows
      unfolding keep select IsDistinct
      keep-select p q [] d = refl
      keep-select p q (r ∷ rows) (apart, d) =
          let sorted = IsStrict-IsSorted (select before p rows) (select-IsStrict p rows d) in
          let rest = keep-select p q rows d in
          elim (Bool-cases (p r)) [
            | inl chosen ↦ ground (arith, keep-insert q r (select before p rows) sorted, rest)
            | inr left ↦ ground (arith, rest)
          ]

      -- What is not before an element is what follows it.
      pub keep-suffix :
          (firsts : List A) (l : A) (rest : List A)
          → IsStrict (firsts ++ l ∷ rest)
          → keep (λ z. not (before z l)) (firsts ++ l ∷ rest) ≡ rest
      unfolding keep IsStrict
      keep-suffix [] l rest (all, s) =
          let kept =
            keep-id (λ z. not (before z l)) rest (pointwise _ _ rest (λ z h. ap not h) all) in
          ground (arith, total l l)
      keep-suffix (f ∷ firsts) l rest (all, s) =
          let past = total l f (All-middle (λ y. before y f ≡ false) firsts l rest all) in
          ground (arith, keep-suffix firsts l rest s)
