-- ===== src/Screening/Decide/Bands.antt =====
-- The hits and the score that go with each decision of `screen_subject_name`.
use proofrail_evidence_api.Screening.Names.{Codes, normalise_name}
use proofrail_evidence_api.Screening.Fraction.{round_percent, round_percent_le}
use proofrail_evidence_api.Screening.Similarity.{NameSets, closest}
use proofrail_evidence_api.Screening.Similarity.Closest.{closest-IsRatio}
use proofrail_evidence_api.Screening.Decide.{
  Decision, allow, block, review, ScreeningResult, given, exact, fuzzy_result, fuzzy, first_match,
  sorted_sources, disambiguate, screen_subject_name,
}
use proofrail_evidence_api.Screening.Decide.Verdicts.{near_has_source, score-near, finish, has_hit}
use proofrail_evidence_api.Prelude.{
  ℕ, ◌≤◌, ◌<◌, ◌≡◌, refl, ◌∙◌, String, Bool, true, false, List, [], ◌∷◌, arith, Option, none, some,
  Bool-cases, inl, inr, leb,
}

-- the hits and scores of a decision
abbrev pub Band : Decision → List String → ℕ → Type 0
Band allow hits score = (has_hit hits ≡ false) × (score < 90)
Band block hits score = (has_hit hits ≡ true) × (score ≡ 100)
Band review hits score = (has_hit hits ≡ true) × (75 ≤ score) × (score ≤ 100)

abbrev InBand : ScreeningResult → Type 0
InBand r = Band r.decision r.hits r.score

finish-exact-InBand :
    (name : Codes) (h : String) (hits : List String) (country dob : Bool)
    → InBand (finish country dob (exact name (h ∷ hits)))
unfolding disambiguate
finish-exact-InBand name h hits true true = (refl, omega arith, omega arith)
finish-exact-InBand name h hits true false = (refl, omega arith, omega arith)
finish-exact-InBand name h hits false true = (refl, omega arith, omega arith)
finish-exact-InBand name h hits false false = (refl, refl)

-- a fuzzy hit of at least 90
finish-review-InBand :
    (r : ScreeningResult) (country dob : Bool)
    → r.decision ≡ review
    → has_hit r.hits ≡ true
    → 90 ≤ r.score
    → r.score ≤ 100
    → InBand (finish country dob r)
unfolding disambiguate
finish-review-InBand r true true d h low high = rw d (h, omega (arith, low), omega arith)
finish-review-InBand r true false d h low high = rw d (h, omega (arith, low), omega arith)
finish-review-InBand r false true d h low high = rw d (h, omega (arith, low), omega arith)
finish-review-InBand r false false d h low high = rw d (h, omega (arith, low), high)

finish-fuzzy_result-InBand :
    (name : Codes) (score : ℕ) (src : Option String) (country dob : Bool)
    → score ≤ 100
    → (src ≡ none → leb 90 score ≡ false)
    → InBand (finish country dob (fuzzy_result name score src))
finish-fuzzy_result-InBand name score none country dob le h =
    unfold disambiguate in (refl, ground (arith, h refl))
finish-fuzzy_result-InBand name score (some src) country dob le h =
    elim (Bool-cases (leb 90 score)) [
      | inl e ↦ rw e (finish-review-InBand _ country dob refl refl (ground (arith, e)) le)
      | inr e ↦ rw e (unfold disambiguate in (refl, ground (arith, e)))
    ]

first_match-InBand :
    (name : Codes) (sets : NameSets) (hits : List String) (country dob : Bool)
    → InBand (finish country dob (first_match name sets hits))
unfolding first_match fuzzy
first_match-InBand name sets [] country dob =
    let ratio = closest-IsRatio name sets in
    finish-fuzzy_result-InBand name (round_percent (closest name sets).sim) (closest name sets).src
      country dob (round_percent_le (closest name sets).sim ratio.0 ratio.1)
      (λ e. score-near name sets ∙ near_has_source name sets e)
first_match-InBand name sets (h ∷ hits) country dob = finish-exact-InBand name h hits country dob

-- An allowed name has no hit and a score below 90, a blocked one a hit and the score 100, and one
-- for review a hit and a score from 75 to 100.
pub screen_subject_name-Band :
    (subject_name : Codes) (sets : NameSets) (country dob : Option String)
    → Band
        (screen_subject_name subject_name sets country dob).decision
        (screen_subject_name subject_name sets country dob).hits
        (screen_subject_name subject_name sets country dob).score
unfolding screen_subject_name
screen_subject_name-Band subject_name sets country dob =
    let name = normalise_name subject_name in
    first_match-InBand name sets (sorted_sources name sets) (given country) (given dob)
