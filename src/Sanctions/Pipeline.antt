-- ===== src/Sanctions/Pipeline.antt =====
-- `run_match_pipeline` of ProofRail/sanctions_determinism.py: retrieve, parse, normalise, match
-- twice, and report. The session, SHA-256 and JSON, the XML parser and the decoding of UTF-8 are
-- the fields of `Tools`.
mod Tests
use Prim.Native.Char.{code}
use Prim.Native.String.{◌++◌ as append}
use proofrail_evidence_api.Screening.Names.{Codes, codes, codes_eq, normalised_name_set}
use proofrail_evidence_api.Screening.Similarity.{NameSets}
use proofrail_evidence_api.Sanctions.Xml.{Element, parse_eu_names, parse_ofac_names, parse_un_names}
use proofrail_evidence_api.Sanctions.Subjects.{build_subjects, Match, deterministic_match}
use proofrail_evidence_api.Sanctions.Sources.{
  SourceIngestion, Fetched, retrieved, fetch_source, compute_list_version,
}
use proofrail_evidence_api.Prelude.{
  map, ℕ, ◌==◌, Bool, true, false, ◌&&◌, String, Option, none, some, List, [], ◌∷◌, ◌++◌, length,
  if◌then◌else◌, str_eq, take, filter,
}

pub record Tools : Type 0 where
  pub get : String → Fetched
  pub output_file : String → String
  pub sha256_bytes : Codes → String
  pub sha256_text : String → String
  pub hash_matches : List Match → String
  pub fromstring : Codes → Option Element
  pub decode : Codes → Codes

-- `s.replace(c, r)` for a character `c`
abbrev pub replace_char : ℕ → String → String → String
replace_char c r String.[] = String.[]
replace_char c r (String.◌∷◌ d s) =
    let rest = replace_char c r s in if code d == c then append r rest else String.◌∷◌ d rest

-- the colons, dashes and the `Z` are left out, and the `T` becomes a low line
unfoldable pub run_id : String → String
run_id retrieval_ts = append "ing_" (
    replace_char 90 "" (replace_char 84 "_" (replace_char 45 "" (replace_char 58 "" retrieval_ts))))

abbrev pub default_sources : List (String × String)
default_sources =
    (
      "EU",
      "https://webgate.ec.europa.eu/fsd/fsf/public/files/xmlFullSanctionsList_1_1/content?token=dG9rZW4tMjAxNw",
    )
    ∷ ("UN", "https://main.un.org/securitycouncil/en/content/un-sc-consolidated-list")
    ∷ ("OFAC", "https://www.treasury.gov/ofac/downloads/sdn.xml")
    ∷ []

abbrev pub payload_of : String → List (String × Codes) → Option Codes
payload_of source_id [] = none
payload_of source_id ((key, payload) ∷ rest) =
    if str_eq key source_id then some payload else payload_of source_id rest

abbrev pub or_empty : Option Codes → Codes
or_empty none = []
or_empty (some payload) = payload

-- what an ingestion that is "ok" adds to `raw_payloads`
abbrev pub raw_payload : SourceIngestion × Option Codes → List (String × Codes)
raw_payload (metadata, none) = []
raw_payload (metadata, some payload) =
    if str_eq metadata.status "ok" then (metadata.source_id, payload) ∷ [] else []

module _ (tools : Tools) where
  unfoldable pub ingest_source :
      String → List (String × Codes) → String × String → SourceIngestion × Option Codes
  ingest_source retrieval_ts overrides (source_id, url) = elim (payload_of source_id overrides) [
    | some payload ↦ (
      retrieved tools.sha256_bytes tools.output_file "ok" source_id url retrieval_ts
          (run_id retrieval_ts) 200 payload none,
      some payload,
    )
    | none ↦
        fetch_source tools.sha256_bytes tools.output_file (tools.get url) source_id url retrieval_ts
          (run_id retrieval_ts)
  ]

  unfoldable pub ingest_all :
      String
      → List (String × Codes)
      → List (String × String)
      → List SourceIngestion × List (String × Codes)
  ingest_all retrieval_ts overrides [] = ([], [])
  ingest_all retrieval_ts overrides (source ∷ sources) =
      let got = ingest_source retrieval_ts overrides source in
      let rest = ingest_all retrieval_ts overrides sources in
      (got.0 ∷ rest.0, raw_payload got ++ rest.1)

-- equality of two runs, by rows
abbrev pub texts_eq : List String → List String → Bool
texts_eq [] [] = true
texts_eq [] (y ∷ ys) = false
texts_eq (x ∷ xs) [] = false
texts_eq (x ∷ xs) (y ∷ ys) = let rest = texts_eq xs ys in str_eq x y && rest

abbrev pub match_eq : Match → Match → Bool
match_eq x y =
    codes_eq x.subject_id y.subject_id
    && codes_eq x.name y.name
    && codes_eq x.name_norm y.name_norm
    && texts_eq x.hits y.hits
    && str_eq x.list_version y.list_version
    && str_eq x.ingestion_run_id y.ingestion_run_id

abbrev pub matches_eq : List Match → List Match → Bool
matches_eq [] [] = true
matches_eq [] (y ∷ ys) = false
matches_eq (x ∷ xs) [] = false
matches_eq (x ∷ xs) (y ∷ ys) = let rest = matches_eq xs ys in match_eq x y && rest

abbrev pub is_ok : SourceIngestion → Bool
is_ok ingestion = str_eq ingestion.status "ok"

unfoldable pub run_status_of : List SourceIngestion → String
run_status_of ingestions =
    let successful = length (filter is_ok ingestions) in
    if successful == length ingestions
    then "complete"
    else if successful == 0
    then "failed"
    else "partial"

pub record Report : Type 0 where
  pub retrieval_timestamp : String
  pub run_status : String
  pub ingestion_run_id : String
  pub sources : List SourceIngestion
  pub eu_name_candidates : ℕ
  pub ofac_name_candidates : ℕ
  pub un_name_candidates : ℕ
  pub normalised_name_set_sizes : List (String × ℕ)
  pub list_version : String
  pub subjects_count : ℕ
  pub run1_hash : String
  pub run2_hash : String
  pub identical : Bool
  pub sample_matches : List Match

-- `list_version_override or …`
abbrev pub or_text : Option String → String → String
or_text none s = s
or_text (some t) s = if str_eq t "" then s else t

module _ (tools : Tools) where
  unfoldable pub eu_names : List (String × Codes) → List Codes
  eu_names raw = parse_eu_names tools.fromstring tools.decode (or_empty (payload_of "EU" raw))

  unfoldable pub ofac_names : List (String × Codes) → List Codes
  ofac_names raw = parse_ofac_names tools.fromstring (or_empty (payload_of "OFAC" raw))

  unfoldable pub un_names : List (String × Codes) → List Codes
  un_names raw = parse_un_names tools.fromstring (or_empty (payload_of "UN" raw))

  unfoldable pub sanctions_names : List (String × Codes) → NameSets
  sanctions_names raw =
      ("EU", normalised_name_set (eu_names raw))
      ∷ ("OFAC", normalised_name_set (ofac_names raw))
      ∷ ("UN", normalised_name_set (un_names raw))
      ∷ []

  -- the time is the one given, or the clock's
  unfoldable pub run_match_pipeline : String → Option String → ℕ → List (String × Codes) → Report
  run_match_pipeline retrieval_ts list_version_override max_subjects overrides =
      let got = ingest_all tools retrieval_ts overrides default_sources in
      let sets = sanctions_names got.1 in
      let subjects =
        build_subjects (eu_names got.1 ++ ofac_names got.1 ++ un_names got.1) max_subjects in
      let list_version =
        or_text list_version_override (compute_list_version tools.sha256_text got.0 retrieval_ts) in
      let run1 =
        deterministic_match tools.hash_matches subjects sets list_version (run_id retrieval_ts) in
      let run2 =
        deterministic_match tools.hash_matches subjects sets list_version (run_id retrieval_ts) in
      record {
        retrieval_timestamp = retrieval_ts;
        run_status = run_status_of got.0;
        ingestion_run_id = run_id retrieval_ts;
        sources = got.0;
        eu_name_candidates = length (eu_names got.1);
        ofac_name_candidates = length (ofac_names got.1);
        un_name_candidates = length (un_names got.1);
        normalised_name_set_sizes = map (λ (set : String × List Codes). (set.0, length set.1)) sets;
        list_version = list_version;
        subjects_count = length subjects;
        run1_hash = run1.1;
        run2_hash = run2.1;
        identical = str_eq run1.1 run2.1 && matches_eq run1.0 run2.0;
        sample_matches = take 10 run1.0;
      }
