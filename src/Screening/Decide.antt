-- ===== src/Screening/Decide.antt =====
-- `screen_subject_name` of ProofRail/service/screening.py, with `Decision` and `ScreeningResult` of
-- ProofRail/service/models.py.
pub mod Verdicts
pub mod Bands
pub mod Listed
mod Tests
use Prim.Native.String.{◌++◌ as append}
use proofrail_evidence_api.Screening.Names.{Codes, normalise_name, contains}
use proofrail_evidence_api.Screening.Fraction.{round_percent}
use proofrail_evidence_api.Screening.Similarity.{Best, NameSets, closest}
use proofrail_evidence_api.Table.{order_by}
use proofrail_evidence_api.Prelude.{
  ℕ, ◌+◌, ◌-◌, min, max, String, Bool, true, false, not, ◌||◌, List, [], ◌∷◌, ◌++◌, Option, none,
  some, leb, map, filter, if◌then◌else◌, str_eq, text_lt,
}

pub data Decision : Type 0 where
  allow : Decision
  block : Decision
  review : Decision

pub record ScreeningResult : Type 0 where
  pub decision : Decision
  pub hits : List String
  pub name_norm : Codes
  pub match_type : String
  pub score : ℕ
  pub reason_codes : List String

-- a text that is there and not empty
abbrev pub given : Option String → Bool
given none = false
given (some s) = not (str_eq s "")

-- `[src for src, names in … if name_norm in names]`
unfoldable pub sources_with : Codes → NameSets → List String
sources_with name [] = []
sources_with name ((src, names) ∷ sets) =
    let rest = sources_with name sets in if contains name names then src ∷ rest else rest

-- the first branch: an exact hit
abbrev pub exact : Codes → List String → ScreeningResult
exact name hits = record {
  decision = block;
  hits = hits;
  name_norm = name;
  match_type = "exact_normalized_name";
  score = 100;
  reason_codes = "sanctions_exact_name_match" ∷ [];
}

abbrev pub no_match : Codes → ℕ → ScreeningResult
no_match name score = record {
  decision = allow;
  hits = [];
  name_norm = name;
  match_type = "none";
  score = score;
  reason_codes = "no_match" ∷ [];
}

-- the test `best_src is not None and score >= 90`
abbrev pub fuzzy_result : Codes → ℕ → Option String → ScreeningResult
fuzzy_result name score none = no_match name score
fuzzy_result name score (some src) =
    if leb 90 score
    then record {
      decision = review;
      hits = src ∷ [];
      name_norm = name;
      match_type = "fuzzy_name_trigram";
      score = score;
      reason_codes = "sanctions_fuzzy_name_match" ∷ [];
    }
    else no_match name score

-- the second branch: no exact hit
unfoldable pub fuzzy : Codes → Best → ScreeningResult
fuzzy name best = fuzzy_result name (round_percent best.sim) best.src

unfoldable pub first_match : Codes → NameSets → List String → ScreeningResult
first_match name sets [] = fuzzy name (closest name sets)
first_match name sets (src ∷ hits) = exact name (src ∷ hits)

abbrev add_reason : Bool → String → ScreeningResult → ScreeningResult
add_reason b code r = if b then record r { reason_codes = r.reason_codes ++ code ∷ [] } else r

-- a block with attributes becomes a review
abbrev pub to_review : ScreeningResult → ScreeningResult
to_review r = record r {
  decision = review;
  match_type = append r.match_type "+needs_disambiguation";
  score = min r.score 85;
  reason_codes = r.reason_codes ++ "needs_dob_country_disambiguation" ∷ [];
}

abbrev pub penalty : Bool → Bool → ℕ
penalty country dob = (if country then 5 else 0) + (if dob then 5 else 0)

abbrev pub penalise : ℕ → ScreeningResult → ScreeningResult
penalise points r = record r {
  score = max 0 (min 100 (r.score - points));
  reason_codes = r.reason_codes ++ "disambiguation_attributes_present" ∷ [];
}

-- the last two tests; both are of a block or review
abbrev pub weigh : Bool → Bool → Decision → ScreeningResult → ScreeningResult
weigh country dob allow r = r
weigh country dob block r =
    if country || dob then penalise (penalty country dob) (to_review r) else r
weigh country dob review r = if country || dob then penalise (penalty country dob) r else r

abbrev pub reasons : Bool → Bool → ScreeningResult → ScreeningResult
reasons country dob r =
    add_reason dob "subject_dob_provided" (add_reason country "subject_country_provided" r)

-- `if decision in {"block", "review"}`
unfoldable pub disambiguate : Bool → Bool → Decision → ScreeningResult → ScreeningResult
disambiguate country dob allow r = r
disambiguate country dob block r = weigh country dob block (reasons country dob r)
disambiguate country dob review r = weigh country dob review (reasons country dob r)

abbrev pub sorted_sources : Codes → NameSets → List String
sorted_sources name sets = order_by (λ x y. not (text_lt y x)) (sources_with name sets)

unfoldable pub screen_subject_name :
    Codes → NameSets → Option String → Option String → ScreeningResult
screen_subject_name subject_name sets subject_country subject_dob =
    let name = normalise_name subject_name in
    let r = first_match name sets (sorted_sources name sets) in
    disambiguate (given subject_country) (given subject_dob) r.decision r
