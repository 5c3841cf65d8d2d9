-- ===== src/Sanctions/Subjects.antt =====
-- `build_subjects` and `deterministic_match` of ProofRail/sanctions_determinism.py.
pub mod Ordered
pub mod Unique
pub mod Covered
mod Tests
use proofrail_evidence_api.Screening.Names.{Codes, codes, codes_eq, normalise_name, contains}
use proofrail_evidence_api.Screening.Decide.{sorted_sources}
use proofrail_evidence_api.Screening.Similarity.{NameSets}
use proofrail_evidence_api.Table.{order_by}
use proofrail_evidence_api.Prelude.{
  show, map, ℕ, zero, suc, ◌-◌, ◌+◌, ◌/◌, ◌%◌, ◌<◌, Bool, true, false, ◌&&◌, ◌||◌, List, [], ◌∷◌,
  ◌++◌, length, not, ltb, leb, if◌then◌else◌, String, ◌==◌, arith,
}

-- the decimal digits
abbrev pub decimal : ℕ → Codes
decimal n = codes (show n)

-- `f"{n:04d}"`
unfoldable pub padded : ℕ → Codes
padded n =
    let digits = decimal n in
    if ltb n 10
    then 48 ∷ 48 ∷ 48 ∷ digits
    else if ltb n 100
    then 48 ∷ 48 ∷ digits
    else if ltb n 1000
    then 48 ∷ digits
    else digits

pub record Subject : Type 0 where
  pub subject_id : Codes
  pub name : Codes

-- the loop, with `seen` and `unique`
unfoldable pub unique_names : ℕ → List Codes → List Codes → List Codes → List Codes
unique_names max_subjects seen unique [] = unique
unique_names max_subjects seen unique (name ∷ names) =
    let normalised = normalise_name name in
    let fresh = not (codes_eq normalised []) && not (contains normalised seen) in
    let seen = if fresh then normalised ∷ seen else seen in
    let unique = if fresh then unique ++ name ∷ [] else unique in
    let rest = unique_names max_subjects seen unique names in
    if leb max_subjects (length unique) then unique else rest

-- the comprehension over `enumerate(unique)`
unfoldable pub number : ℕ → List Codes → List Subject
number idx [] = []
number idx (name ∷ names) =
    record { subject_id = codes "sub_" ++ padded idx; name = name } ∷ number (suc idx) names

abbrev pub negatives : List Subject
negatives =
    record { subject_id = codes "sub_neg_0001"; name = codes "ALICE EXAMPLE" }
    ∷ record { subject_id = codes "sub_neg_0002"; name = codes "BOB EXAMPLE" }
    ∷ record { subject_id = codes "sub_neg_0003"; name = codes "SCANDINAVIAN TEST PERSON" }
    ∷ []

unfoldable pub build_subjects : List Codes → ℕ → List Subject
build_subjects reference_names max_subjects =
    number 0 (unique_names max_subjects [] [] reference_names) ++ negatives

-- a row of the output; its provenance is the run and constants
pub record Match : Type 0 where
  pub subject_id : Codes
  pub name : Codes
  pub name_norm : Codes
  pub hits : List String
  pub list_version : String
  pub ingestion_run_id : String

unfoldable pub match_subject : NameSets → String → String → Subject → Match
match_subject sanctions_names list_version ingestion_run_id subject =
    let normalised = normalise_name subject.name in
    record {
      subject_id = subject.subject_id;
      name = subject.name;
      name_norm = normalised;
      hits = sorted_sources normalised sanctions_names;
      list_version = list_version;
      ingestion_run_id = ingestion_run_id;
    }

-- texts by code points
unfoldable pub codes_lt : Codes → Codes → Bool
codes_lt [] [] = false
codes_lt [] (d ∷ t) = true
codes_lt (c ∷ s) [] = false
codes_lt (c ∷ s) (d ∷ t) = let rest = codes_lt s t in ltb c d || ((c == d) && rest)

abbrev pub by_subject_id : Match → Match → Bool
by_subject_id x y = not (codes_lt y.subject_id x.subject_id)

-- the output, and its hash by the codec's
unfoldable pub deterministic_match :
    (List Match → String) → List Subject → NameSets → String → String → List Match × String
deterministic_match hash subjects sanctions_names list_version ingestion_run_id =
    let output =
      order_by by_subject_id
        (map (match_subject sanctions_names list_version ingestion_run_id) subjects) in
    (output, hash output)
