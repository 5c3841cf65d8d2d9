-- ===== src/Sanctions/Subjects/Tests.antt =====
-- Runs of `build_subjects`' numbering.
use mathlib.Core.List.{Permᴰ}
use proofrail_evidence_api.Sanctions.Subjects.Ordered.{deterministic_match-Perm}
use proofrail_evidence_api.Sanctions.Subjects.{Subject, deterministic_match}
use proofrail_evidence_api.Sanctions.Subjects.Covered.{
  reference_names-Covered, build_subjects_unique, Covered,
}
use proofrail_evidence_api.Sanctions.Subjects.Unique.{Good}
use proofrail_evidence_api.Screening.Names.{
  contains, is_space, is_alnum, rstrip_char, rstrip, lstrip, strip, sub_runs, special_upper,
  upper_char, Codes, upper, normalise_name, codes,
}
use proofrail_evidence_api.Sanctions.Subjects.{build_subjects, unique_names, padded}
use proofrail_evidence_api.Prelude.{
  arith, List, show, ◌+◌, ◌≤◌, All, ◌<◌, length, ◌∷◌, [], max, ◌≡◌, refl,
}

small : padded 7 ≡ codes "0007"
unfolding padded show
small = refl

wide : padded 12345 ≡ codes "12345"
unfolding padded show
wide = refl

abbrev two_names : List Codes
two_names = codes "a" ∷ codes "A-" ∷ []

build_subjects_unique_example :
    Good (max 1 2) (unique_names 2 [] [] two_names)
    × (length (build_subjects two_names 2) ≤ max 1 2 + 3)
build_subjects_unique_example = build_subjects_unique two_names 2

program : Unit {0}
unfolding unique_names normalise_name upper upper_char special_upper sub_runs strip lstrip rstrip
    rstrip_char is_alnum is_space contains
program = tt

one_is_left : length (unique_names 2 [] [] two_names) < 2
unfolding program
one_is_left = omega arith

reference_names-Covered_example : All (Covered (unique_names 2 [] [] two_names)) two_names
reference_names-Covered_example = reference_names-Covered two_names 2 one_is_left

abbrev first : Subject
first = record { subject_id = codes "SUBJ_0001"; name = codes "a" }

abbrev second : Subject
second = record { subject_id = codes "SUBJ_0002"; name = codes "b" }

swapped : Permᴰ (first ∷ second ∷ []) (second ∷ first ∷ [])
swapped = Permᴰ.swap refl refl

deterministic_match-Perm_example :
    deterministic_match (λ out. "hash") (first ∷ second ∷ []) [] "v" "run"
    ≡ deterministic_match (λ out. "hash") (second ∷ first ∷ []) [] "v" "run"
deterministic_match-Perm_example =
    deterministic_match-Perm (λ out. "hash") (first ∷ second ∷ []) (second ∷ first ∷ []) [] "v"
      "run" swapped ((refl, tt), (tt, tt))
