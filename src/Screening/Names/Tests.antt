-- ===== src/Screening/Names/Tests.antt =====
-- Runs of `normalise_name` and `normalised_name_set`.
use proofrail_evidence_api.Screening.Names.Sets.{contains-normalised_name_set, normal_form_of}
use proofrail_evidence_api.Screening.Names.{
  codes, is_alnum, is_space, special_upper, upper_char, upper, sub_runs, lstrip, rstrip_char,
  rstrip, strip, normalise_name, contains, add, add_normalised, normalised_name_set,
}
use proofrail_evidence_api.Screening.Names.Words.{words, join_words, normalise_name-words}
use proofrail_evidence_api.Prelude.{◌≡◌, refl, [], ◌∷◌}

program : Unit {0}
unfolding is_alnum is_space special_upper upper_char upper sub_runs lstrip rstrip_char rstrip strip
    normalise_name contains add add_normalised normalised_name_set
program = tt

punctuation : normalise_name (codes "  o'Brien--Straße,  J.R. ") ≡ codes "O BRIEN STRASSE J R"
unfolding program
punctuation = refl

no_latin : normalise_name (codes "Иван Петров") ≡ []
unfolding program
no_latin = refl

name_set :
    normalised_name_set (codes "Ann-B" ∷ codes "--" ∷ codes "ANN b" ∷ codes "c" ∷ [])
    ≡ codes "ANN B" ∷ codes "C" ∷ []
unfolding program
name_set = refl

normalise_name-words_example :
    normalise_name (codes " a--b ") ≡ join_words (words (upper (codes " a--b ")))
normalise_name-words_example = normalise_name-words (codes " a--b ")

contains-normalised_name_set_example :
    contains (codes "C") (normalised_name_set (codes "--" ∷ codes "c" ∷ []))
    ≡ normal_form_of (codes "C") (codes "--" ∷ codes "c" ∷ [])
contains-normalised_name_set_example =
    contains-normalised_name_set (codes "C") (codes "--" ∷ codes "c" ∷ [])
