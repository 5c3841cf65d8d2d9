-- ===== src/Api/Listing.antt =====
-- `v2_list_cases` of ProofRail/service/app.py, with its header `x-next-cursor`. A time is a
-- number here, so the text of a cursor is given by what `cursor.split("|", 1)` makes of it.
pub mod Complete
use proofrail_evidence_api.Prelude.{
  ℕ, String, not, Option, none, some, List, map, length, get_last?, leb, if◌then◌else◌,
}
use proofrail_evidence_api.Table.{clamp_limit}
use proofrail_evidence_api.Evidence.{Codec, get_pack}
use proofrail_evidence_api.Cases.{Case, list_cases}
use proofrail_evidence_api.Api.{Answer, ok, http_error, ApiState, Principal, has_scope}
use proofrail_evidence_api.Api.CaseHandlers.{CaseSummary, summary}

-- no cursor that `list_cases` heeds (none, or an empty part), one without a bar, and one with two parts
pub data Cursor : Type 0 where
  absent : Cursor
  bad_format : Cursor
  after_case : ℕ → String → Cursor

-- the response with its header `x-next-cursor`
pub record CasePage : Type 0 where
  pub cases : List CaseSummary
  pub next_cursor : Cursor

module _ {B : Type 0} (c : Codec B) (s : ApiState B) where
  abbrev pub show_row : Case → CaseSummary
  show_row case = summary (get_pack c case.evidence_pack_id s.store) case

  -- the cursor of the last row
  abbrev pub last_cursor : Option Case → Cursor
  last_cursor none = absent
  last_cursor (some case) = after_case case.updated_at case.case_id

  -- a full page has a next one
  abbrev pub page_of : ℕ → List Case → CasePage
  page_of limit rows = record {
    cases = map show_row rows;
    next_cursor =
        if leb (clamp_limit 200 limit) (length rows) then last_cursor (get_last? rows) else absent;
  }

  abbrev pub list_after :
      Principal → Option String → Option String → ℕ → Option (ℕ × String) → CasePage
  list_after principal status assignee limit cursor =
      page_of limit (list_cases principal.customer_id status assignee limit cursor s.tables)

  abbrev pub list_page : Principal → Option String → Option String → ℕ → Cursor → Answer CasePage
  list_page principal status assignee limit absent =
      ok (list_after principal status assignee limit none)
  list_page principal status assignee limit bad_format = http_error 422 "validation_error"
  list_page principal status assignee limit (after_case updated_at case_id) =
      ok (list_after principal status assignee limit (some (updated_at, case_id)))

  unfoldable pub v2_list_cases :
      Principal → Option String → Option String → ℕ → Cursor → Answer CasePage
  v2_list_cases principal status assignee limit cursor =
      if not (has_scope "read:evidence" principal)
      then http_error 403 "missing_scope"
      else list_page principal status assignee limit cursor
