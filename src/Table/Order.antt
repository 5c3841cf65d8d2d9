-- ===== src/Table/Order.antt =====
-- ORDER BY a strict order on rows that it tells apart, and WHERE: the two commute.
use proofrail_evidence_api.Prelude.{
  Bool, true, false, not, ◌||◌, List, [], ◌∷◌, ◌≡◌, refl, arith, filter, if◌then◌else◌, All,
  All-imp, All-filter, Bool-cases, inl, inr,
}
use proofrail_evidence_api.Table.{insert_by, order_by, All-insert_by, All-order_by}

-- `after x y`: the row `x` comes after the row `y`
module _ {A : Type 0} (after : A → A → Bool) where
  abbrev pub no_later : A → A → Bool
  no_later x y = not (after x y)

  -- strictly in order
  abbrev pub Ordered : List A → Type 0
  Ordered [] = Unit
  Ordered (x ∷ xs) = All (λ z. after z x ≡ true) xs × Ordered xs

  -- any two rows are told apart
  abbrev pub Distinct : List A → Type 0
  Distinct [] = Unit
  Distinct (x ∷ xs) = All (λ z. (after x z || after z x) ≡ true) xs × Distinct xs

  pub Distinct-filter : (p : A → Bool) (xs : List A) → Distinct xs → Distinct (filter p xs)
  Distinct-filter p [] h = tt
  Distinct-filter p (x ∷ xs) h = elim (Bool-cases (p x)) [
    | inl e ↦
        rw e (All-filter (λ z. (after x z || after z x) ≡ true) p xs h.0, Distinct-filter p xs h.1)
    | inr e ↦ rw e (Distinct-filter p xs h.1)
  ]

  pub Ordered-filter : (p : A → Bool) (xs : List A) → Ordered xs → Ordered (filter p xs)
  Ordered-filter p [] h = tt
  Ordered-filter p (x ∷ xs) h = elim (Bool-cases (p x)) [
    | inl e ↦ rw e (All-filter (λ z. after z x ≡ true) p xs h.0, Ordered-filter p xs h.1)
    | inr e ↦ rw e (Ordered-filter p xs h.1)
  ]

  module _ (irreflexive : (x : A) → after x x ≡ false)
      (transitive : (x y z : A) → after x y ≡ true → after y z ≡ true → after x z ≡ true) where
    pub asymmetric : (x y : A) → after x y ≡ true → after y x ≡ false
    asymmetric x y h = elim (Bool-cases (after y x)) [
      | inl e ↦ ground (arith, transitive x y x h e, irreflexive x)
      | inr e ↦ e
    ]

    Ordered-insert_by :
        (x : A) (ys : List A)
        → All (λ z. (after x z || after z x) ≡ true) ys
        → Ordered ys
        → Ordered (insert_by no_later x ys)
    unfolding insert_by
    Ordered-insert_by x [] apart h = (tt, tt)
    Ordered-insert_by x (y ∷ ys) apart h = elim (Bool-cases (after x y)) [
      | inl e ↦ rw e (
        All-insert_by no_later (λ z. after z y ≡ true) x ys e h.0,
        Ordered-insert_by x ys apart.1 h.1,
      )
      | inr e ↦
          let first : after y x ≡ true = ground (arith, apart.0, e) in
          rw e (
            (
              first,
              All-imp {P = λ z. after z y ≡ true} (λ z later. transitive z y x later first) ys h.0,
            ),
            h,
          )
    ]

    pub Ordered-order_by : (xs : List A) → Distinct xs → Ordered (order_by no_later xs)
    unfolding order_by
    Ordered-order_by [] h = tt
    Ordered-order_by (x ∷ xs) h =
        Ordered-insert_by x (order_by no_later xs)
          (All-order_by no_later (λ z. (after x z || after z x) ≡ true) xs h.0)
          (Ordered-order_by xs h.1)

    -- a row that all others come after goes first
    insert_by_first :
        (x : A) (ys : List A) → All (λ z. after z x ≡ true) ys → insert_by no_later x ys ≡ x ∷ ys
    unfolding insert_by
    insert_by_first x [] h = refl
    insert_by_first x (y ∷ ys) h = ground (arith, asymmetric y x h.0)

    filter-insert_by :
        (p : A → Bool) (x : A) (ys : List A)
        → All (λ z. (after x z || after z x) ≡ true) ys
        → Ordered ys
        → filter p (insert_by no_later x ys)
          ≡ (if p x then insert_by no_later x (filter p ys) else filter p ys)
    unfolding insert_by
    filter-insert_by p x [] apart h = ground arith
    filter-insert_by p x (y ∷ ys) apart h = elim (Bool-cases (after x y)) [
      | inl e ↦ ground (arith, e, filter-insert_by p x ys apart.1 h.1)
      | inr e ↦
          let first : after y x ≡ true = ground (arith, apart.0, e) in
          let all_later : All (λ z. after z x ≡ true) (y ∷ ys) = (
            first,
            All-imp {P = λ z. after z y ≡ true} (λ z later. transitive z y x later first) ys h.0,
          ) in
          ground (
            arith,
            e,
            insert_by_first x (filter p (y ∷ ys))
                (All-filter (λ z. after z x ≡ true) p (y ∷ ys) all_later),
          )
    ]

    -- WHERE before ORDER BY is WHERE after it.
    pub filter-order_by :
        (p : A → Bool) (xs : List A)
        → Distinct xs
        → filter p (order_by no_later xs) ≡ order_by no_later (filter p xs)
    unfolding order_by
    filter-order_by p [] h = refl
    filter-order_by p (x ∷ xs) h =
        let step =
          filter-insert_by p x (order_by no_later xs)
            (All-order_by no_later (λ z. (after x z || after z x) ≡ true) xs h.0)
            (Ordered-order_by xs h.1) in
        ground (arith, step, filter-order_by p xs h.1)
