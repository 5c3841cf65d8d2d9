-- ===== src/Table.antt =====
-- The SQL that the database layer issues, over a table as the list of its rows in rowid order:
-- WHERE, UPDATE, DELETE, COUNT, ORDER BY and LIMIT.
pub mod Order
pub mod Paging
pub mod Permuted
pub mod Selected
use proofrail_evidence_api.Prelude.{
  ◌∙◌, ℕ, suc, ◌≤◌, ◌<◌, ◌≡◌, refl, ap, Bool, true, false, not, List, [], ◌∷◌, ◌++◌, arith, length,
  filter, any, All, if◌then◌else◌, Bool-cases, inl, inr, max, min,
}

-- `max(1, min(limit, cap))`
unfoldable pub clamp_limit : ℕ → ℕ → ℕ
clamp_limit cap limit = max 1 (min cap limit)

module _ {ℓ} {A : Type ℓ} where
  -- UPDATE … SET f WHERE p
  unfoldable pub update_where : (A → Bool) → (A → A) → List A → List A
  update_where p f [] = []
  update_where p f (x ∷ xs) = (if p x then f x else x) ∷ update_where p f xs

  -- DELETE … WHERE p
  unfoldable pub delete_where : (A → Bool) → List A → List A
  delete_where p = filter (λ x. not (p x))

  -- SELECT COUNT(*) … WHERE p, and the rowcount of an UPDATE or DELETE
  unfoldable pub count_where : (A → Bool) → List A → ℕ
  count_where p xs = length (filter p xs)

  -- a row is put before the first one that it does not come after
  unfoldable pub insert_by : (A → A → Bool) → A → List A → List A
  insert_by le x [] = x ∷ []
  insert_by le x (y ∷ ys) = if le x y then x ∷ y ∷ ys else y ∷ insert_by le x ys

  -- ORDER BY, rows that tie in rowid order
  unfoldable pub order_by : (A → A → Bool) → List A → List A
  unfolding insert_by
  order_by le [] = []
  order_by le (x ∷ xs) = insert_by le x (order_by le xs)

module _ {ℓ} {A : Type ℓ} (le : A → A → Bool) where
  module _ (P : A → Type 0) where
    All-insert_by : (x : A) (ys : List A) → P x → All P ys → All P (insert_by le x ys)
    unfolding insert_by
    All-insert_by x [] hx hys = (hx, tt)
    All-insert_by x (y ∷ ys) hx hys = elim (Bool-cases (le x y)) [
      | inl before ↦ rw before (hx, hys)
      | inr after ↦ rw after (hys.0, All-insert_by x ys hx hys.1)
    ]

    pub All-order_by : (xs : List A) → All P xs → All P (order_by le xs)
    unfolding order_by
    All-order_by [] h = tt
    All-order_by (x ∷ xs) h = All-insert_by x (order_by le xs) h.0 (All-order_by xs h.1)

  length-insert_by : (x : A) (ys : List A) → length (insert_by le x ys) ≡ suc (length ys)
  unfolding insert_by
  length-insert_by x [] = refl
  length-insert_by x (y ∷ ys) = ground (arith, length-insert_by x ys)

  pub length-order_by : (xs : List A) → length (order_by le xs) ≡ length xs
  unfolding order_by
  length-order_by [] = refl
  length-order_by (x ∷ xs) = length-insert_by x (order_by le xs) ∙ ap suc (length-order_by xs)

  module _ (p : A → Bool) where
    any-insert_by :
        (x : A) (ys : List A) → any p (insert_by le x ys) ≡ (if p x then true else any p ys)
    unfolding insert_by
    any-insert_by x [] = refl
    any-insert_by x (y ∷ ys) = ground (arith, any-insert_by x ys)

    -- sorting neither loses nor makes rows
    pub any-order_by : (xs : List A) → any p (order_by le xs) ≡ any p xs
    unfolding order_by
    any-order_by [] = refl
    any-order_by (x ∷ xs) =
        any-insert_by x (order_by le xs) ∙ ap (λ b. if p x then true else b) (any-order_by xs)

module _ {ℓ} {A : Type ℓ} where
  -- every row after an UPDATE comes from one before it
  pub All-update_where :
      (P Q : A → Type 0) (p : A → Bool) (f : A → A)
      → ((x : A) → p x ≡ true → P x → Q (f x))
      → ((x : A) → p x ≡ false → P x → Q x)
      → (xs : List A) → All P xs
      → All Q (update_where p f xs)
  unfolding update_where
  All-update_where P Q p f changed kept [] h = tt
  All-update_where P Q p f changed kept (x ∷ xs) h = (
    elim (Bool-cases (p x)) [ inl e ↦ rw e (changed x e h.0) | inr e ↦ rw e (kept x e h.0) ],
    All-update_where P Q p f changed kept xs h.1,
  )

  pub length-update_where :
      (p : A → Bool) (f : A → A) (xs : List A) → length (update_where p f xs) ≡ length xs
  unfolding update_where
  length-update_where p f [] = refl
  length-update_where p f (x ∷ xs) = ap suc (length-update_where p f xs)

  -- no row is counted by a test that none passes
  pub count_where_none :
      (p : A → Bool) (xs : List A) → All (λ x. p x ≡ false) xs → count_where p xs ≡ 0
  unfolding count_where
  count_where_none p [] h = refl
  count_where_none p (x ∷ xs) h = ground (arith, count_where_none p xs h.1)

  pub any_none : (p : A → Bool) (xs : List A) → All (λ x. p x ≡ false) xs → any p xs ≡ false
  any_none p [] h = refl
  any_none p (x ∷ xs) h = ground (arith, any_none p xs h.1)

-- Rows with an AUTOINCREMENT id: the ids grow in rowid order and stay below the next one.
module _ {ℓ} {A : Type ℓ} (id : A → ℕ) where
  abbrev pub Increasing : ℕ → List A → Type 0
  Increasing bound [] = Unit
  Increasing bound (x ∷ xs) = (bound ≤ id x) × Increasing (suc (id x)) xs

module _ {ℓ} {A : Type ℓ} (id : A → ℕ) where
  Increasing-le : (m n : ℕ) (xs : List A) → m ≤ n → Increasing id n xs → Increasing id m xs
  Increasing-le m n [] h k = tt
  Increasing-le m n (x ∷ xs) h k = (omega arith, k.1)

  pub Increasing-filter :
      (p : A → Bool) (n : ℕ) (xs : List A) → Increasing id n xs → Increasing id n (filter p xs)
  Increasing-filter p n [] h = tt
  Increasing-filter p n (x ∷ xs) h = elim (Bool-cases (p x)) [
    | inl e ↦ rw e (h.0, Increasing-filter p (suc (id x)) xs h.1)
    | inr e ↦ rw e (
        Increasing-le n (suc (id x)) (filter p xs) (omega arith)
          (Increasing-filter p (suc (id x)) xs h.1))
  ]

  pub Increasing-update_where :
      (p : A → Bool) (f : A → A) (n : ℕ) (xs : List A)
      → ((x : A) → id (f x) ≡ id x)
      → Increasing id n xs
      → Increasing id n (update_where p f xs)
  unfolding update_where
  Increasing-update_where p f n [] same h = tt
  Increasing-update_where p f n (x ∷ xs) same h = elim (Bool-cases (p x)) [
    | inl e ↦ rw (e, same) (h.0, Increasing-update_where p f (suc (id x)) xs same h.1)
    | inr e ↦ rw e (h.0, Increasing-update_where p f (suc (id x)) xs same h.1)
  ]

  pub Increasing-snoc :
      (y : A) (n : ℕ) (xs : List A)
      → n ≤ id y
      → All (λ x. id x < id y) xs
      → Increasing id n xs
      → Increasing id n (xs ++ y ∷ [])
  Increasing-snoc y n [] below small h = (below, tt)
  Increasing-snoc y n (x ∷ xs) below small h =
      (h.0, Increasing-snoc y (suc (id x)) xs small.0 small.1 h.1)
