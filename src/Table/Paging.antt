-- ===== src/Table/Paging.antt =====
-- Keyset pagination: the pages that a client collects, each from the last row of the page before.
use proofrail_evidence_api.Prelude.{
  take_all, length-drop, get_last?-some, ℕ, suc, zero, ◌<◌, ◌≤◌, Bool, true, false, Option, none,
  some, List, [], ◌∷◌, ◌++◌, ◌≡◌, refl, sym, ap, ◌∙◌, arith, filter, take, drop, length, get_last?,
  leb, if◌then◌else◌, All, All-filter_test, All-take, Bool-cases, inl, inr, take-append-drop,
  length-take,
}
use proofrail_evidence_api.Table.{order_by, All-order_by}
use proofrail_evidence_api.Table.Order.{
  no_later, Ordered, Distinct, Ordered-order_by, Distinct-filter, filter-order_by, asymmetric,
}

pub filter_whole {ℓ} :
    {A : Type ℓ} (p : A → Bool) (xs : List A) → All (λ x. p x ≡ true) xs → filter p xs ≡ xs
filter_whole p [] h = refl
filter_whole p (x ∷ xs) h = ground (arith, h.0, filter_whole p xs h.1)

All-get_last {ℓ} :
    {A : Type ℓ} (P : A → Type 0) (xs : List A) (c : A) → All P xs → get_last? xs ≡ some c → P c
All-get_last P [] c h last = ground (arith, last)
All-get_last P (x ∷ []) c h last = let same : x ≡ c = ground (arith, last) in rw (sym same) h.0
All-get_last P (x ∷ y ∷ xs) c h last = All-get_last P (y ∷ xs) c h.1 last

filter-filter {ℓ} :
    {A : Type ℓ} (p q : A → Bool) (xs : List A)
    → ((x : A) → q x ≡ true → p x ≡ true)
    → filter q (filter p xs) ≡ filter q xs
filter-filter p q [] h = refl
filter-filter p q (x ∷ xs) h = elim (Bool-cases (q x)) [
  | inl e ↦ ground (arith, e, h x e, filter-filter p q xs h)
  | inr e ↦ ground (arith, e, filter-filter p q xs h)
]

module _ {A : Type 0} (after : A → A → Bool) where
  -- the test of a page: no cursor, or a row to come after
  abbrev pub after_cursor : Option A → A → Bool
  after_cursor none x = true
  after_cursor (some c) x = after x c

  -- one page
  abbrev pub page : ℕ → Option A → List A → List A
  page n cursor rows = take n (order_by (no_later after) (filter (after_cursor cursor) rows))

  -- what a client collects that follows the cursor until a page is not full
  abbrev pub collect : ℕ → ℕ → Option A → List A → List A
  collect zero n cursor rows = []
  collect (suc fuel) n cursor rows =
      let p = page n cursor rows in
      let rest : List A = elim (get_last? p) [
        | none ↦ []
        | some c ↦ collect fuel n (some c) rows
      ] in
      if leb n (length p) then p ++ rest else p

  module _ (irreflexive : (x : A) → after x x ≡ false)
      (transitive : (x y z : A) → after x y ≡ true → after y z ≡ true → after x z ≡ true) where
    rest_of_first :
        (x c : A) (xs : List A)
        → x ≡ c
        → All (λ z. after z x ≡ true) xs
        → filter (λ z. after z c) (x ∷ xs) ≡ xs
    rest_of_first x c xs same h =
        ap (λ d. filter (λ z. after z d) (x ∷ xs)) (sym same)
        ∙ ground (arith, irreflexive x, filter_whole (λ z. after z x) xs h)

    -- a row after the cursor's next row is after the cursor
    follows :
        (cursor : Option A) (c x : A)
        → after_cursor cursor c ≡ true
        → after x c ≡ true
        → after_cursor cursor x ≡ true
    follows none c x h k = refl
    follows (some d) c x h k = transitive x c d k h

    -- of an ordered list, what comes after the last row of a page is what follows the page
    rest_of_page :
        (n : ℕ) (xs : List A) (c : A)
        → Ordered after xs
        → get_last? (take n xs) ≡ some c
        → filter (λ x. after x c) xs ≡ drop n xs
    rest_of_page zero xs c h last = ground (arith, last)
    rest_of_page (suc n) [] c h last = refl
    rest_of_page (suc zero) (x ∷ xs) c h last =
        let same : x ≡ c = ground (arith, last) in rest_of_first x c xs same h.0
    rest_of_page (suc (suc n)) (x ∷ []) c h last =
        let same : x ≡ c = ground (arith, last) in rest_of_first x c [] same tt
    rest_of_page (suc (suc n)) (x ∷ y ∷ xs) c h last =
        let later : after c x ≡ true =
          All-get_last (λ z. after z x ≡ true) (take (suc n) (y ∷ xs)) c
            (All-take (λ z. after z x ≡ true) (suc n) (y ∷ xs) h.0) last in
        ground (
          arith,
          asymmetric after irreflexive transitive c x later,
          rest_of_page (suc n) (y ∷ xs) c h.1 last,
        )

    -- what a cursor leaves, in order
    abbrev pub remaining : Option A → List A → List A
    remaining cursor rows = order_by (no_later after) (filter (after_cursor cursor) rows)

    -- the row that a full page ends with leaves what follows the page
    remaining_next :
        (n : ℕ) (cursor : Option A) (rows : List A) (c : A)
        → Distinct after rows
        → get_last? (page n cursor rows) ≡ some c
        → remaining (some c) rows ≡ drop n (remaining cursor rows)
    remaining_next n cursor rows c apart last =
        let here = filter-order_by after irreflexive transitive (after_cursor cursor) rows apart in
        let next =
          filter-order_by after irreflexive transitive (after_cursor (some c)) rows apart in
        let sorted = order_by (no_later after) rows in
        let passes : after_cursor cursor c ≡ true =
          All-get_last (λ z. after_cursor cursor z ≡ true) (page n cursor rows) c
            (All-take (λ z. after_cursor cursor z ≡ true) n (remaining cursor rows)
              (All-order_by (no_later after) (λ z. after_cursor cursor z ≡ true)
                (filter (after_cursor cursor) rows)
                (All-filter_test (λ z. after_cursor cursor z ≡ true) (after_cursor cursor)
                  (λ x e. e) rows)))
            last in
        sym next
        ∙ sym (
            filter-filter (after_cursor cursor) (after_cursor (some c)) sorted
              (λ x e. follows cursor c x passes e))
        ∙ ap (filter (after_cursor (some c))) here
        ∙ rest_of_page n (remaining cursor rows) c
            (Ordered-order_by after irreflexive transitive (filter (after_cursor cursor) rows)
              (Distinct-filter after (after_cursor cursor) rows apart))
            last

    -- Following the cursor collects every row exactly once, in order.
    pub collect-remaining :
        (fuel n : ℕ) (cursor : Option A) (rows : List A)
        → Distinct after rows
        → 1 ≤ n
        → length (remaining cursor rows) < fuel
        → collect fuel n cursor rows ≡ remaining cursor rows
    collect-remaining zero n cursor rows apart pos enough = ground (arith, enough)
    collect-remaining (suc fuel) n cursor rows apart pos enough =
        let all = remaining cursor rows in
        elim (Bool-cases (leb n (length (page n cursor rows)))) [
          | inl full ↦
              let (c, last) = get_last?-some (page n cursor rows) (ground (arith, full, pos)) in
              let next = remaining_next n cursor rows c apart last in
              let shorter : length (remaining (some c) rows) < fuel =
                ground (
                  arith,
                  ap length next,
                  length-drop n all,
                  length-take n all,
                  full,
                  pos,
                  enough,
                ) in
              let rest = collect-remaining fuel n (some c) rows apart pos shorter ∙ next in
              rw (full, last, rest) (take-append-drop n all)
          | inr short ↦ rw short (take_all n all (ground (arith, short, length-take n all)))
        ]
