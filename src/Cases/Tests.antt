-- ===== src/Cases/Tests.antt =====
-- Two cases of one customer, listed in pages of one, and the witnesses.
use proofrail_evidence_api.Prelude.{ℕ, String, none, [], ◌∷◌, ◌≡◌, refl, map, text_lt}
use proofrail_evidence_api.Table.{order_by, insert_by, clamp_limit, update_where, delete_where}
use proofrail_evidence_api.Cases.{
  Screening, Case, CaseTables, insert_screening, upsert_case, get_case, has_case, has_screening,
  list_cases,
}
use proofrail_evidence_api.Cases.Listing.{list_all}

program : Unit {0}
unfolding order_by insert_by clamp_limit update_where delete_where insert_screening upsert_case
    get_case has_case has_screening list_cases list_all text_lt
program = tt

abbrev screening : String → Screening
screening id = record {
  screening_id = id;
  created_at = 1;
  customer_id = "c";
  evidence_pack_id = "p";
  list_version = "v";
}

abbrev a_case : String → ℕ → Case
a_case id ts = record {
  case_id = id;
  created_at = ts;
  updated_at = ts;
  customer_id = "c";
  screening_id = id;
  evidence_pack_id = "p";
  status = "closed";
  assignee = none;
}

abbrev tables : CaseTables
tables = record {
  screenings = screening "s1" ∷ screening "s2" ∷ [];
  decisions = [];
  cases = a_case "s1" 5 ∷ a_case "s2" 5 ∷ a_case "s3" 9 ∷ [];
  events = [];
}

in_pages :
    map (λ (c : Case). c.case_id) (list_all "c" none none 1 4 none tables) ≡ "s3" ∷ "s2" ∷ "s1" ∷ []
unfolding program
in_pages = refl

no_screening : upsert_case (a_case "s9" 1) tables ≡ none
unfolding program
no_screening = refl
