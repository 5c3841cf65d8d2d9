-- ===== src/Screening/Decide/Tests.antt =====
-- Runs of `screen_subject_name`.
use proofrail_evidence_api.Screening.Decide.Listed.{
  unscreenable_name_allowed, listed_name_blocked, build_sets,
}
use proofrail_evidence_api.Table.{insert_by, order_by}
use proofrail_evidence_api.Screening.Fraction.{round_percent, gt}
use proofrail_evidence_api.Screening.Names.{
  codes_eq, Codes, add, contains, strip, rstrip, rstrip_char, lstrip, sub_runs, upper, upper_char,
  special_upper, is_space, is_alnum, codes, normalise_name,
}
use proofrail_evidence_api.Screening.Similarity.{
  closest, best_over, best_in, keep_best, trigram_jaccard, jaccard, trigrams, union, windows,
  NameSets,
}
use proofrail_evidence_api.Screening.Decide.{
  Codes, order_by, disambiguate, first_match, fuzzy, sources_with, round_percent, closest, contains,
  allow, block, review, given, screen_subject_name,
}
use proofrail_evidence_api.Screening.Decide.Verdicts.{
  verdict, listed, near, screen_subject_name-decision,
}
use proofrail_evidence_api.Screening.Decide.Bands.{Band, screen_subject_name-Band}
use proofrail_evidence_api.Prelude.{inl, false, text_lt, ◌≡◌, refl, [], ◌∷◌, none, some, ◌||◌}

program : Unit {0}
unfolding is_alnum is_space special_upper upper_char upper sub_runs lstrip rstrip_char rstrip strip
    normalise_name contains add windows union trigrams jaccard trigram_jaccard keep_best best_in
    best_over closest gt round_percent sources_with fuzzy first_match disambiguate
    screen_subject_name order_by insert_by text_lt
program = tt

abbrev sets : NameSets
sets =
    ("UN", codes "IVAN PETROV" ∷ codes "ANNA MARIA JOHANNA LINDSTROM" ∷ [])
    ∷ ("EU", codes "IVAN PETROV" ∷ [])
    ∷ []

exact_hit : screen_subject_name (codes "ivan  Petrov") sets none none ≡ record {
  decision = block;
  hits = "EU" ∷ "UN" ∷ [];
  name_norm = codes "IVAN PETROV";
  match_type = "exact_normalized_name";
  score = 100;
  reason_codes = "sanctions_exact_name_match" ∷ [];
}
unfolding program
exact_hit = refl

with_country : screen_subject_name (codes "ivan  Petrov") sets (some "SE") (some "") ≡ record {
  decision = review;
  hits = "EU" ∷ "UN" ∷ [];
  name_norm = codes "IVAN PETROV";
  match_type = "exact_normalized_name+needs_disambiguation";
  score = 80;
  reason_codes =
      "sanctions_exact_name_match" ∷ "subject_country_provided" ∷ "needs_dob_country_disambiguation"
      ∷ "disambiguation_attributes_present" ∷ [];
}
unfolding program
with_country = refl

close_hit :
    (screen_subject_name (codes "Anna Maria Johanna Lindstrom L") sets none none).decision ≡ review
unfolding program
close_hit = refl

no_hit : (screen_subject_name (codes "Bob Example") sets none (some "1970-01-01")).decision ≡ allow
unfolding program
no_hit = refl

screen_subject_name-decision_example :
    (screen_subject_name (codes "ivan  Petrov") sets none none).decision
    ≡ verdict
        (listed (normalise_name (codes "ivan  Petrov")) sets)
        (near (normalise_name (codes "ivan  Petrov")) sets)
        (given none || given none)
screen_subject_name-decision_example =
    screen_subject_name-decision (codes "ivan  Petrov") sets none none

screen_subject_name-Band_example :
    Band
      (screen_subject_name (codes "ivan  Petrov") sets none none).decision
      (screen_subject_name (codes "ivan  Petrov") sets none none).hits
      (screen_subject_name (codes "ivan  Petrov") sets none none).score
screen_subject_name-Band_example = screen_subject_name-Band (codes "ivan  Petrov") sets none none

abbrev cyrillic : Codes
cyrillic = codes "Иван Петров"

cyrillic_blank : normalise_name cyrillic ≡ []
unfolding program
cyrillic_blank = refl

ivan_filled : codes_eq (normalise_name (codes "Ivan!")) [] ≡ false
unfolding program
ivan_filled = refl

listed_name_blocked_example :
    (screen_subject_name
      (codes "Ivan!")
      (build_sets (("EU", codes "Ivan!" ∷ []) ∷ []))
      none
      none).decision
    ≡ block
listed_name_blocked_example =
    listed_name_blocked (codes "Ivan!") (("EU", codes "Ivan!" ∷ []) ∷ []) ivan_filled
      (inl (inl refl))

unscreenable_name_allowed_example :
    (screen_subject_name cyrillic
      (build_sets (("UN", cyrillic ∷ []) ∷ []))
      (some "RU")
      none).decision
    ≡ allow
unscreenable_name_allowed_example =
    unscreenable_name_allowed cyrillic (("UN", cyrillic ∷ []) ∷ []) (some "RU") none cyrillic_blank
