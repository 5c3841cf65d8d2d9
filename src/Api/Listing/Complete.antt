-- ===== src/Api/Listing/Complete.antt =====
-- What a client gets that follows the cursors of `v2_list_cases`.
use proofrail_evidence_api.Prelude.{
  ℕ, zero, suc, String, true, ◌≡◌, ◌++◌, ap, ◌∙◌, sym, refl, Option, none, some, List, [], map,
  length, get_last?, leb, filter, append-nil, Bool-cases, Option-cases, inl, inr,
}
use mathlib.Core.List.{map-append}
use proofrail_evidence_api.Table.{clamp_limit, order_by}
use proofrail_evidence_api.Evidence.{Codec}
use proofrail_evidence_api.Cases.{Case, list_cases, newest_first, selected}
use proofrail_evidence_api.Cases.Listing.{HasIds, cursor_of, list_all, list_all_complete}
use proofrail_evidence_api.Api.{Answer, ok, http_error, crash, ApiState, Principal, has_scope}
use proofrail_evidence_api.Api.CaseHandlers.{CaseSummary}
use proofrail_evidence_api.Api.Listing.{
  Cursor, absent, bad_format, after_case, CasePage, show_row, last_cursor, list_after,
  v2_list_cases,
}

abbrev pub in_front : List CaseSummary → Answer (List CaseSummary) → Answer (List CaseSummary)
in_front xs (ok ys) = ok (xs ++ ys)
in_front xs (http_error status code) = http_error status code
in_front xs crash = crash

module _ {B : Type 0} (c : Codec B) (s : ApiState B) (principal : Principal)
    (status assignee : Option String) (limit : ℕ) where
  abbrev pub then_next :
      Answer CasePage → (Cursor → Answer (List CaseSummary)) → Answer (List CaseSummary)
  then_next (ok page) next = elim page.next_cursor [
    | absent ↦ ok page.cases
    | bad_format ↦ in_front page.cases (next bad_format)
    | after_case updated_at case_id ↦ in_front page.cases (next (after_case updated_at case_id))
  ]
  then_next (http_error status code) next = http_error status code
  then_next crash next = crash

  -- a client's loop: a page, and the next one as long as there is a cursor
  unfoldable pub fetch_all : ℕ → Cursor → Answer (List CaseSummary)
  fetch_all zero cursor = ok []
  fetch_all (suc fuel) cursor =
      then_next (v2_list_cases c s principal status assignee limit cursor) (fetch_all fuel)

  abbrev rows_after : Option Case → List Case
  rows_after cursor =
      list_cases principal.customer_id status assignee limit (cursor_of cursor) s.tables

  v2_list_cases_lem :
      (cursor : Option Case)
      → has_scope "read:evidence" principal ≡ true
      → v2_list_cases c s principal status assignee limit (last_cursor c s cursor)
        ≡ ok (list_after c s principal status assignee limit (cursor_of cursor))
  unfolding v2_list_cases
  v2_list_cases_lem none scope = rw scope refl
  v2_list_cases_lem (some case) scope = rw scope refl

  fetch_all-list_all :
      (fuel : ℕ) (cursor : Option Case)
      → has_scope "read:evidence" principal ≡ true
      → fetch_all fuel (last_cursor c s cursor)
        ≡ ok (
            map
              (show_row c s)
              (list_all principal.customer_id status assignee limit fuel cursor s.tables))
  unfolding fetch_all list_all
  fetch_all-list_all zero cursor scope = refl
  fetch_all-list_all (suc fuel) cursor scope =
      rw (v2_list_cases_lem cursor scope)
        (elim (Bool-cases (leb (clamp_limit 200 limit) (length (rows_after cursor)))) [
          | inr few ↦ rw few refl
          | inl full ↦ elim (Option-cases (get_last? (rows_after cursor))) [
            | inl e ↦
                rw (full, e)
                  (ap (λ xs. ok (map (show_row c s) xs)) (sym (append-nil (rows_after cursor))))
            | inr (case, e) ↦
                rw (full, e, fetch_all-list_all fuel (some case) scope)
                  (ap ok (
                    sym (
                      map-append (show_row c s) (rows_after cursor) (
                        list_all principal.customer_id status assignee limit fuel (some case)
                          s.tables))))
          ]
        ])

-- A client with the scope `read:evidence` that follows `x-next-cursor`, page by page, gets the summary
-- of each case of its customer that the filters select, once and newest first, if case ids are
-- distinct; one page more than there are cases is enough.
pub fetch_all_complete :
    {B : Type 0} (c : Codec B) (s : ApiState B) (principal : Principal)
    (status assignee : Option String) (limit : ℕ)
    → HasIds s.tables.cases
    → has_scope "read:evidence" principal ≡ true
    → fetch_all c s principal status assignee limit (suc (length s.tables.cases)) absent
      ≡ ok (
          map (show_row c s) (
            order_by newest_first
              (filter (selected principal.customer_id status assignee) s.tables.cases)))
fetch_all_complete c s principal status assignee limit ids scope =
    fetch_all-list_all c s principal status assignee limit (suc (length s.tables.cases)) none scope
    ∙ ap (λ xs. ok (map (show_row c s) xs))
        (list_all_complete principal.customer_id status assignee limit s.tables ids)
