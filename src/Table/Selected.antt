-- ===== src/Table/Selected.antt =====
-- From the rows that a query with WHERE, ORDER BY and LIMIT returns back to those of the table, where
-- the limit leaves none out.
use proofrail_evidence_api.Prelude.{
  take_all, arith, take, inr, ◌≤◌, true, Bool-cases, [], inl, ◌≡◌, filter, length, ◌∷◌, All, Any, ℕ,
  Bool, List,
}
use mathlib.Core.Path.{subst}
use proofrail_evidence_api.Table.{insert_by, order_by, length-order_by}

module _ {A : Type 0} (P : A → Type 0) (le : A → A → Bool) where
  insert_by-All : (x : A) (ys : List A) → All P (insert_by le x ys) → P x × All P ys
  unfolding insert_by
  insert_by-All x [] h = h
  insert_by-All x (y ∷ ys) h = elim (Bool-cases (le x y)) [
    | inl e ↦ let k : P x × (P y × All P ys) = rw e at h in k
    | inr e ↦
        let k : P y × All P (insert_by le x ys) = rw e at h in
        let (first, rest) = insert_by-All x ys k.1 in (first, (k.0, rest))
  ]

  pub order_by-All : (xs : List A) → All P (order_by le xs) → All P xs
  unfolding order_by
  order_by-All [] h = tt
  order_by-All (x ∷ xs) h =
      let (first, rest) = insert_by-All x (order_by le xs) h in (first, order_by-All xs rest)

module _ {A : Type 0} (P : A → Type 0) where
  pub filter-All :
      (p : A → Bool) (xs : List A) → All P (filter p xs) → All (λ x. p x ≡ true → P x) xs
  filter-All p [] h = tt
  filter-All p (x ∷ xs) h = elim (Bool-cases (p x)) [
    | inl e ↦ let k : P x × All P (filter p xs) = rw e at h in ((λ h. k.0), filter-All p xs k.1)
    | inr e ↦
        let k : All P (filter p xs) = rw e at h in
        ((λ h. absurd (ground (arith, h, e))), filter-All p xs k)
  ]

  -- what holds of all holds of one of them
  pub All-one : (x : A) (xs : List A) → Any (λ y. y ≡ x) xs → All P xs → P x
  All-one x [] h k = absurd h
  All-one x (y ∷ ys) (inl e) k = subst P e k.0
  All-one x (y ∷ ys) (inr h) k = All-one x ys h k.1

module _ {A : Type 0} (P : A → Type 0) (le : A → A → Bool) (p : A → Bool) where
  -- what holds of the rows returned holds of the rows that pass the WHERE
  pub selected-All :
      (n : ℕ) (xs : List A)
      → length (filter p xs) ≤ n
      → All P (take n (order_by le (filter p xs)))
      → All (λ x. p x ≡ true → P x) xs
  selected-All n xs few h = filter-All P p xs (
      order_by-All P le (filter p xs) (
        subst (All P)
          (take_all n (order_by le (filter p xs))
            (omega (arith, few, length-order_by le (filter p xs))))
          h))
