-- ===== src/Table/Permuted.antt =====
-- Sorting by an order that tells the rows apart does not depend on the order they come in.
use mathlib.Core.Path.{subst}
use mathlib.Core.List.{Permᴰ}
use proofrail_evidence_api.Table.{insert_by, order_by}
use proofrail_evidence_api.Table.Order.{no_later, Distinct, asymmetric}
use proofrail_evidence_api.Prelude.{
  Bool, true, false, ◌||◌, List, [], ◌∷◌, ◌≡◌, refl, ap, ◌∙◌, arith, All, Bool-cases, inl, inr,
}

module _ {A : Type 0} (after : A → A → Bool) where
  abbrev Apart : A → A → Type 0
  Apart x z = (after x z || after z x) ≡ true

  Apart-sym : (x z : A) → Apart x z → Apart z x
  Apart-sym x z h = ground (arith, h)

  module _ (P : A → Type 0) where
    All-Perm : (xs ys : List A) → Permᴰ xs ys → All P xs → All P ys
    All-Perm _ _ Permᴰ.nil h = tt
    All-Perm (a ∷ xs) (b ∷ ys) (Permᴰ.cons e p) h = (subst P e h.0, All-Perm xs ys p h.1)
    All-Perm (a ∷ b ∷ xs) (c ∷ d ∷ _) (Permᴰ.swap e f) h = (subst P f h.1.0, (subst P e h.0, h.1.1))
    All-Perm xs ys (Permᴰ.trans {l₂} p q) h = All-Perm l₂ ys q (All-Perm xs l₂ p h)

  Distinct-Perm : (xs ys : List A) → Permᴰ xs ys → Distinct after xs → Distinct after ys
  Distinct-Perm _ _ Permᴰ.nil h = tt
  Distinct-Perm (a ∷ xs) (b ∷ ys) (Permᴰ.cons e p) h =
      (subst (λ c. All (Apart c) ys) e (All-Perm (Apart a) xs ys p h.0), Distinct-Perm xs ys p h.1)
  Distinct-Perm (a ∷ b ∷ xs) (c ∷ d ∷ _) (Permᴰ.swap e f) h =
      subst (λ c. Distinct after (c ∷ d ∷ xs)) f
        (subst (λ d. Distinct after (b ∷ d ∷ xs)) e ((Apart-sym a b h.0.0, h.1.0), (h.0.1, h.1.1)))
  Distinct-Perm xs ys (Permᴰ.trans {l₂} p q) h = Distinct-Perm l₂ ys q (Distinct-Perm xs l₂ p h)

  module _ (irreflexive : (x : A) → after x x ≡ false)
      (transitive : (x y z : A) → after x y ≡ true → after y z ≡ true → after x z ≡ true) where
    behind : (x y z : A) → Apart x y → after y z ≡ true → after x z ≡ false → after y x ≡ true
    behind x y z d h k = elim (Bool-cases (after y x)) [
      | inl e ↦ e
      | inr e ↦ absurd (ground (arith, transitive x y z (ground (arith, d, e)) h, k))
    ]

    insert-insert :
        (x y : A) (zs : List A)
        → Apart x y
        → insert_by (no_later after) x (insert_by (no_later after) y zs)
          ≡ insert_by (no_later after) y (insert_by (no_later after) x zs)
    unfolding insert_by
    insert-insert x y [] d = ground (arith, d, asymmetric after irreflexive transitive x y)
    insert-insert x y (z ∷ zs) d = ground (
      arith,
      d,
      asymmetric after irreflexive transitive x y,
      insert-insert x y zs d,
      behind x y z d,
      behind y x z (Apart-sym x y d),
    )

    insert_by-order_by :
        (a b : A) (zs : List A)
        → Apart a b
        → order_by (no_later after) (a ∷ b ∷ zs) ≡ order_by (no_later after) (b ∷ a ∷ zs)
    unfolding order_by
    insert_by-order_by a b zs d = insert-insert a b (order_by (no_later after) zs) d

    order_by-cons :
        (a : A) (xs ys : List A)
        → order_by (no_later after) xs ≡ order_by (no_later after) ys
        → order_by (no_later after) (a ∷ xs) ≡ order_by (no_later after) (a ∷ ys)
    unfolding order_by
    order_by-cons a xs ys e = ap (insert_by (no_later after) a) e

    -- rows that the order tells apart are sorted alike however they come in
    pub order_by-Perm :
        (xs ys : List A)
        → Permᴰ xs ys
        → Distinct after xs
        → order_by (no_later after) xs ≡ order_by (no_later after) ys
    order_by-Perm _ _ Permᴰ.nil h = refl
    order_by-Perm (a ∷ xs) (b ∷ ys) (Permᴰ.cons e p) h =
        order_by-cons a xs ys (order_by-Perm xs ys p h.1)
        ∙ ap (λ c. order_by (no_later after) (c ∷ ys)) e
    order_by-Perm (a ∷ b ∷ xs) (c ∷ d ∷ _) (Permᴰ.swap e f) h =
        insert_by-order_by a b xs h.0.0
        ∙ ap (λ c. order_by (no_later after) (c ∷ a ∷ xs)) f
        ∙ ap (λ d. order_by (no_later after) (c ∷ d ∷ xs)) e
    order_by-Perm xs ys (Permᴰ.trans {l₂} p q) h =
        order_by-Perm xs l₂ p h ∙ order_by-Perm l₂ ys q (Distinct-Perm xs l₂ p h)
