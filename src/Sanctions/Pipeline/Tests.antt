-- ===== src/Sanctions/Pipeline/Tests.antt =====
-- A run of `run_match_pipeline` with one list given and two that cannot be retrieved.
use proofrail_evidence_api.Sanctions.Xml.{
  until_quote, after_prefix, match_here, find_iter, parse_un_names, parse_ofac_names,
  parse_eu_names,
}
use proofrail_evidence_api.Screening.Names.{Codes, codes}
use proofrail_evidence_api.Sanctions.Sources.{fetch_source, raised}
use proofrail_evidence_api.Sanctions.Pipeline.{
  run_status_of, sanctions_names, un_names, ofac_names, eu_names, ingest_source, ingest_all, Tools,
  run_id, run_match_pipeline,
}
use proofrail_evidence_api.Prelude.{String, ◌≡◌, refl, List, [], ◌∷◌, none}

abbrev offline : Tools
offline = record {
  get = λ url. raised (codes "timeout");
  output_file = λ source_id. source_id;
  sha256_bytes = λ b. "sha";
  sha256_text = λ s. s;
  hash_matches = λ ms. "matches";
  fromstring = λ b. none;
  decode = λ b. b;
}

abbrev overrides : List (String × Codes)
overrides = ("EU", codes "wholeName=\"Ann\"") ∷ []

run_id_lem : run_id "2026-01-02T03:04:05Z" ≡ "ing_20260102_030405"
unfolding run_id
run_id_lem = refl

program : Unit {0}
unfolding run_match_pipeline ingest_all ingest_source fetch_source eu_names ofac_names un_names
    sanctions_names parse_eu_names parse_ofac_names parse_un_names find_iter match_here after_prefix
    until_quote run_status_of
program = tt

partial_run :
    ((run_match_pipeline offline "2026-01-02T03:04:05Z" none 5 overrides).run_status ≡ "partial")
    × ((run_match_pipeline offline "2026-01-02T03:04:05Z" none 5 overrides).eu_name_candidates ≡ 1)
unfolding program
partial_run = (refl, refl)
