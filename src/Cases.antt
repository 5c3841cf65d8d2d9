-- ===== src/Cases.antt =====
-- The case tables of ProofRail/service/db.py: `screenings`, `screening_review_decisions`, `cases` and
-- `case_events`. Foreign keys are on, so an INSERT whose parent row is missing raises: `none`. An
-- assignee or a note that is not set stays `none` in `get_case` and `list_cases`, which return an empty
-- text; a cursor is there if both of its parts are.
pub mod Listing
pub mod Upsert
mod Tests
use proofrail_evidence_api.Prelude.{
  text_lt, ℕ, String, Bool, true, false, not, ◌&&◌, ◌||◌, Option, none, some, List, [], ◌∷◌, ◌++◌,
  leb, ltb, ◌==◌, str_eq, if◌then◌else◌, filter, find?, any, take, map,
}
use proofrail_evidence_api.Table.{clamp_limit, update_where, delete_where, order_by}

pub record Screening : Type 0 where
  pub screening_id : String
  pub created_at : ℕ
  pub customer_id : String
  pub evidence_pack_id : String
  pub list_version : String

pub record ReviewDecision : Type 0 where
  pub screening_id : String
  pub decided_at : ℕ
  pub customer_id : String
  pub evidence_pack_id : String
  pub outcome : String
  pub note : Option String

pub record Case : Type 0 where
  pub case_id : String
  pub created_at : ℕ
  pub updated_at : ℕ
  pub customer_id : String
  pub screening_id : String
  pub evidence_pack_id : String
  pub status : String
  pub assignee : Option String

-- a row of `case_events`; the rows stand in the order of their ids
pub record CaseEvent : Type 0 where
  pub case_id : String
  pub ts : ℕ
  pub actor : String
  pub event_type : String
  pub note : Option String

pub record CaseTables : Type 0 where
  pub screenings : List Screening
  pub decisions : List ReviewDecision
  pub cases : List Case
  pub events : List CaseEvent

-- what `list_case_events` returns of a row
pub record ListedEvent : Type 0 where
  pub ts : ℕ
  pub actor : String
  pub event_type : String
  pub note : String

-- `x if x is not None else ""`
abbrev pub or_empty : Option String → String
or_empty none = ""
or_empty (some s) = s

unfoldable pub get_screening : String → CaseTables → Option Screening
get_screening id t = find? (λ (s : Screening). str_eq s.screening_id id) t.screenings

-- `INSERT OR REPLACE`: the row goes to the end of the table
unfoldable pub insert_screening : Screening → CaseTables → CaseTables
insert_screening s t = record t {
  screenings =
      delete_where (λ (r : Screening). str_eq r.screening_id s.screening_id) t.screenings ++ s ∷ [];
}

-- a screening with this id exists
unfoldable pub has_screening : String → CaseTables → Bool
has_screening id t = any (λ (s : Screening). str_eq s.screening_id id) t.screenings

unfoldable pub upsert_screening_review_decision : ReviewDecision → CaseTables → Option CaseTables
upsert_screening_review_decision d t =
    if not (has_screening d.screening_id t)
    then none
    else let hit = λ (r : ReviewDecision). str_eq r.screening_id d.screening_id in
      some (record t {
        decisions =
            if any hit t.decisions
            then update_where hit (λ r. d) t.decisions
            else t.decisions ++ d ∷ [];
      })

unfoldable pub get_screening_review_decision_by_evidence_pack :
    String → String → CaseTables → Option ReviewDecision
get_screening_review_decision_by_evidence_pack customer_id pack_id t =
    find?
      (λ (r : ReviewDecision).
        str_eq r.customer_id customer_id && str_eq r.evidence_pack_id pack_id)
      t.decisions

-- `COALESCE(a, b)`
abbrev pub coalesce : Option String → Option String → Option String
coalesce none b = b
coalesce (some a) b = some a

-- the `DO UPDATE SET` of `upsert_case`
abbrev pub excluded : Case → Case → Case
excluded c row = record row {
  updated_at = c.updated_at;
  status = c.status;
  evidence_pack_id = c.evidence_pack_id;
  assignee = coalesce c.assignee row.assignee;
}

unfoldable pub has_case : String → CaseTables → Bool
has_case id t = any (λ (c : Case). str_eq c.case_id id) t.cases

unfoldable pub upsert_case : Case → CaseTables → Option CaseTables
upsert_case c t =
    if has_case c.case_id t
    then some (record t {
      cases = update_where (λ (r : Case). str_eq r.case_id c.case_id) (excluded c) t.cases;
    })
    else if has_screening c.screening_id t
    then some (record t { cases = t.cases ++ c ∷ [] })
    else none

unfoldable pub get_case : String → CaseTables → Option Case
get_case id t = find? (λ (c : Case). str_eq c.case_id id) t.cases

unfoldable pub insert_case_event : CaseEvent → CaseTables → Option CaseTables
insert_case_event e t =
    if has_case e.case_id t then some (record t { events = t.events ++ e ∷ [] }) else none

abbrev pub listed : CaseEvent → ListedEvent
listed e = record { ts = e.ts; actor = e.actor; event_type = e.event_type; note = or_empty e.note }

abbrev pub by_ts : CaseEvent → CaseEvent → Bool
by_ts a b = leb a.ts b.ts

-- rows that tie in `ts` come in the order of their ids
unfoldable pub list_case_events : String → ℕ → CaseTables → List ListedEvent
list_case_events case_id limit t = map listed (
    take (clamp_limit 500 limit)
      (order_by by_ts (filter (λ (e : CaseEvent). str_eq e.case_id case_id) t.events)))

-- a Python text that is there and not empty
abbrev pub truthy : Option String → Option String
truthy none = none
truthy (some s) = if str_eq s "" then none else some s

-- `AND status = ?` and `AND assignee = ?`, where such a filter is given
abbrev pub matches : Option String → String → Bool
matches none s = true
matches (some wanted) s = str_eq s wanted

-- `updated_at < ? OR (updated_at = ? AND case_id < ?)`
abbrev pub comes_after : ℕ × String → Case → Bool
comes_after (updated_at, case_id) c =
    ltb c.updated_at updated_at || ((c.updated_at == updated_at) && text_lt c.case_id case_id)

abbrev pub after_cursor : Option (ℕ × String) → Case → Bool
after_cursor none c = true
after_cursor (some cursor) c = comes_after cursor c

-- `ORDER BY updated_at DESC, case_id DESC`: `a` comes no later than `b`
abbrev pub newest_first : Case → Case → Bool
newest_first a b = not (comes_after (b.updated_at, b.case_id) a)

abbrev pub assignee_matches : Option String → Option String → Bool
assignee_matches none a = true
assignee_matches (some wanted) none = false
assignee_matches (some wanted) (some a) = str_eq a wanted

-- the rows that `list_cases` selects when there is no cursor
abbrev pub selected : String → Option String → Option String → Case → Bool
selected customer_id status assignee c =
    str_eq c.customer_id customer_id
    && (matches (truthy status) c.status && assignee_matches (truthy assignee) c.assignee)

unfoldable pub list_cases :
    String → Option String → Option String → ℕ → Option (ℕ × String) → CaseTables → List Case
list_cases customer_id status assignee limit cursor t = take (clamp_limit 200 limit) (
    order_by newest_first
      (filter (λ c. selected customer_id status assignee c && after_cursor cursor c) t.cases))
