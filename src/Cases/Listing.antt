-- ===== src/Cases/Listing.antt =====
-- `list_cases` in pages: what a client gets that follows `x-next-cursor`.
use proofrail_evidence_api.Prelude.{
  ℕ, suc, zero, String, ◌≤◌, Bool, true, false, ◌||◌, ◌&&◌, Option, none, some, List, [], ◌∷◌, ◌++◌,
  ◌≡◌, refl, ap, ◌∙◌, arith, filter, length, get_last?, leb, if◌then◌else◌, All, All-imp, All-pure,
  length-filter-le, text_lt-irreflexive, text_lt-transitive, text_lt-total, str_eq, eq_iff, take,
  Option-cases, inl, inr,
}
use proofrail_evidence_api.Table.{clamp_limit, order_by, length-order_by}
use proofrail_evidence_api.Table.Order.{Distinct, Distinct-filter}
use proofrail_evidence_api.Table.Paging.{filter_whole, page, collect, collect-remaining}
use proofrail_evidence_api.Cases.{
  Case, CaseTables, comes_after, after_cursor, newest_first, selected, list_cases,
}

-- `a` stands further down the list than `b`
abbrev pub older : Case → Case → Bool
older a b = comes_after (b.updated_at, b.case_id) a

older-irreflexive : (c : Case) → older c c ≡ false
older-irreflexive c = ground (arith, text_lt-irreflexive c.case_id)

older-transitive : (a b c : Case) → older a b ≡ true → older b c ≡ true → older a c ≡ true
older-transitive a b c h k = ground (arith, h, k, text_lt-transitive a.case_id b.case_id c.case_id)

-- the primary key
abbrev pub HasIds : List Case → Type 0
HasIds [] = Unit
HasIds (c ∷ cs) = All (λ (d : Case). str_eq c.case_id d.case_id ≡ false) cs × HasIds cs

older-apart : (c d : Case) → str_eq c.case_id d.case_id ≡ false → (older c d || older d c) ≡ true
older-apart c d h = ground (arith, h, text_lt-total c.case_id d.case_id, eq_iff c.case_id d.case_id)

HasIds-Distinct : (cs : List Case) → HasIds cs → Distinct older cs
HasIds-Distinct [] h = tt
HasIds-Distinct (c ∷ cs) h = (
  All-imp {P = λ (d : Case). str_eq c.case_id d.case_id ≡ false} (older-apart c) cs h.0,
  HasIds-Distinct cs h.1,
)

clamp_limit-pos : (cap limit : ℕ) → 1 ≤ clamp_limit cap limit
unfolding clamp_limit
clamp_limit-pos cap limit = omega arith

filter_both {ℓ} :
    {A : Type ℓ} (p q : A → Bool) (xs : List A)
    → filter (λ x. p x && q x) xs ≡ filter q (filter p xs)
filter_both p q [] = refl
filter_both p q (x ∷ xs) = ground (arith, filter_both p q xs)

-- the cursor that a row gives
abbrev pub cursor_of : Option Case → Option (ℕ × String)
cursor_of none = none
cursor_of (some c) = some (c.updated_at, c.case_id)

-- A client's loop: it asks for a page, and for the next one as long as the page is full, from the
-- row that the page ends with.
unfoldable pub list_all :
    String → Option String → Option String → ℕ → ℕ → Option Case → CaseTables → List Case
list_all customer_id status assignee limit zero cursor t = []
list_all customer_id status assignee limit (suc fuel) cursor t =
    let rows = list_cases customer_id status assignee limit (cursor_of cursor) t in
    let rest : List Case = elim (get_last? rows) [
      | none ↦ []
      | some c ↦ list_all customer_id status assignee limit fuel (some c) t
    ] in
    if leb (clamp_limit 200 limit) (length rows) then rows ++ rest else rows

module _ (customer_id : String) (status assignee : Option String) (limit : ℕ) (t : CaseTables) where
  abbrev matching : List Case
  matching = filter (selected customer_id status assignee) t.cases

  list_cases-page :
      (cursor : Option Case)
      → list_cases customer_id status assignee limit (cursor_of cursor) t
        ≡ page older (clamp_limit 200 limit) cursor matching
  unfolding list_cases
  list_cases-page none =
      ap (λ cs. take (clamp_limit 200 limit) (order_by newest_first cs))
        (filter_both (selected customer_id status assignee) (after_cursor none) t.cases)
  list_cases-page (some c) =
      ap (λ cs. take (clamp_limit 200 limit) (order_by newest_first cs))
        (filter_both (selected customer_id status assignee)
          (after_cursor (some (c.updated_at, c.case_id))) t.cases)

  list_all-collect :
      (fuel : ℕ) (cursor : Option Case)
      → list_all customer_id status assignee limit fuel cursor t
        ≡ collect older fuel (clamp_limit 200 limit) cursor matching
  unfolding list_all
  list_all-collect zero cursor = refl
  list_all-collect (suc fuel) cursor =
      let here = list_cases-page cursor in
      elim (Option-cases (get_last? (page older (clamp_limit 200 limit) cursor matching))) [
        | inl e ↦ ground (arith, here, e)
        | inr (c, e) ↦ ground (arith, here, e, list_all-collect fuel (some c))
      ]

  -- A client that follows the cursor, page by page, gets every case that its filter selects exactly
  -- once and newest first, if case ids are distinct; one page more than there are cases is enough.
  pub list_all_complete :
      HasIds t.cases
      → list_all customer_id status assignee limit (suc (length t.cases)) none t
        ≡ order_by newest_first matching
  list_all_complete ids =
      let apart =
        Distinct-filter older (selected customer_id status assignee) t.cases
          (HasIds-Distinct t.cases ids) in
      list_all-collect (suc (length t.cases)) none
      ∙ collect-remaining older older-irreflexive older-transitive (suc (length t.cases))
          (clamp_limit 200 limit) none matching apart (clamp_limit-pos 200 limit)
          (omega (
            arith,
            length-order_by newest_first (filter (λ (c : Case). true) matching),
            length-filter-le (λ (c : Case). true) matching,
            length-filter-le (selected customer_id status assignee) t.cases,
          ))
      ∙ ap (order_by newest_first) (
          filter_whole (λ (c : Case). true) matching
            (All-pure (λ (c : Case). true ≡ true) (λ c. refl) matching))
