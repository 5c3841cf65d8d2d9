-- ===== src/Screening/Decide/Listed.antt =====
-- Screening against the sets that the pipeline makes of the names of each source.
use proofrail_evidence_api.Prelude.{
  ◌||◌, Option, refl, arith, inr, ap, inl, ◌∙◌, none, true, ◌∷◌, any, false, length, [], ◌≡◌, map,
  String, ◌≤◌, Any, ℕ, List,
}
use proofrail_evidence_api.Screening.Names.{
  add, Codes, codes_eq, contains, normalise_name, normalised_name_set,
}
use proofrail_evidence_api.Screening.Names.Sets.{contains-normalised_name_set, codes_eq_self}
use proofrail_evidence_api.Screening.Fraction.{close}
use proofrail_evidence_api.Screening.Similarity.{
  NameSets, windows, union, trigrams, jaccard, trigram_jaccard, length-union-le,
}
use proofrail_evidence_api.Screening.Decide.{List, ℕ, allow, block, given, screen_subject_name}
use proofrail_evidence_api.Screening.Decide.Verdicts.{
  listed, near, verdict, screen_subject_name-decision,
}

-- the normalised set of each source
unfoldable pub build_sets : List (String × List Codes) → NameSets
build_sets = map (λ (p : String × List Codes). (p.0, normalised_name_set p.1))

-- some source has the name on its list
abbrev pub OnList : Codes → List (String × List Codes) → Type 0
OnList name = Any (λ (p : String × List Codes). Any (λ n. n ≡ name) p.1)

any_normal :
    (name : Codes) (names : List Codes)
    → Any (λ n. n ≡ name) names
    → any (λ n. codes_eq (normalise_name name) (normalise_name n)) names ≡ true
any_normal name [] h = absurd h
any_normal name (n ∷ names) (inl e) =
    rw
      (ap (λ m. codes_eq (normalise_name name) (normalise_name m)) e
        ∙ codes_eq_self (normalise_name name))
      refl
any_normal name (n ∷ names) (inr h) = ground (arith, any_normal name names h)

listed-OnList :
    (name : Codes) (raw : List (String × List Codes))
    → codes_eq (normalise_name name) [] ≡ false
    → OnList name raw
    → listed (normalise_name name) (build_sets raw) ≡ true
unfolding listed build_sets
listed-OnList name [] filled h = absurd h
listed-OnList name (p ∷ raw) filled (inl h) =
    rw (contains-normalised_name_set (normalise_name name) p.1, filled, any_normal name p.1 h) refl
listed-OnList name (p ∷ raw) filled (inr h) = ground (arith, listed-OnList name raw filled h)

-- A name that some source lists, and whose normal form is not empty, is blocked when it is screened
-- without country and date of birth.
pub listed_name_blocked :
    (name : Codes) (raw : List (String × List Codes))
    → codes_eq (normalise_name name) [] ≡ false
    → OnList name raw
    → (screen_subject_name name (build_sets raw) none none).decision ≡ block
listed_name_blocked name raw filled h =
    screen_subject_name-decision name (build_sets raw) none none
    ∙ ap (λ b. verdict b (near (normalise_name name) (build_sets raw)) false)
        (listed-OnList name raw filled h)

union_some : (x : Codes) (xs : List Codes) → 1 ≤ length (union [] (x ∷ xs))
unfolding union add contains
union_some x xs = length-union-le (x ∷ []) xs

trigrams_some : (c : ℕ) (s : Codes) → 1 ≤ length (trigrams (c ∷ s))
unfolding trigrams windows
trigrams_some c [] = union_some _ _
trigrams_some c (d ∷ s) = union_some _ _

add_some : (x : Codes) (out : List Codes) → 1 ≤ length (add x out)
unfolding add contains
add_some x [] = omega arith
add_some x (y ∷ out) = ground arith

union_more : (out xs : List Codes) → 1 ≤ length xs → 1 ≤ length (union out xs)
unfolding union
union_more out [] h = absurd (omega (arith, h))
union_more out (x ∷ xs) h = omega (arith, add_some x out, length-union-le (add x out) xs)

-- no trigram is shared with a name that has none
no_common : (tb : List Codes) → 1 ≤ length tb → close (jaccard [] tb) ≡ false
unfolding jaccard close
no_common tb h = ground (arith, h, union_more [] tb h)

no_trigrams : trigrams [] ≡ []
unfolding trigrams windows union
no_trigrams = refl

empty_far : (cand : Codes) → codes_eq [] cand ≡ false → close (trigram_jaccard [] cand) ≡ false
unfolding trigram_jaccard
empty_far [] h = absurd (ground (arith, h))
empty_far (c ∷ s) h = rw no_trigrams (no_common (trigrams (c ∷ s)) (trigrams_some c s))

not_contained :
    (names : List Codes)
    → contains [] names ≡ false
    → any (λ cand. close (trigram_jaccard [] cand)) names ≡ false
unfolding contains
not_contained [] h = refl
not_contained (n ∷ names) h =
    ground (arith, empty_far n (ground (arith, h)), not_contained names (ground (arith, h)))

no_empty_name : (names : List Codes) → contains [] (normalised_name_set names) ≡ false
no_empty_name names = contains-normalised_name_set [] names

empty_not_listed : (raw : List (String × List Codes)) → listed [] (build_sets raw) ≡ false
unfolding listed build_sets
empty_not_listed [] = refl
empty_not_listed (p ∷ raw) = rw (no_empty_name p.1) (empty_not_listed raw)

empty_not_near : (raw : List (String × List Codes)) → near [] (build_sets raw) ≡ false
unfolding near build_sets
empty_not_near [] = refl
empty_not_near (p ∷ raw) =
    rw (not_contained (normalised_name_set p.1) (no_empty_name p.1)) (empty_not_near raw)

-- A name without an ASCII letter or digit in its upper case is allowed whatever the sources list,
-- the same name included, and whatever country and date of birth come with it.
pub unscreenable_name_allowed :
    (name : Codes) (raw : List (String × List Codes)) (country dob : Option String)
    → normalise_name name ≡ []
    → (screen_subject_name name (build_sets raw) country dob).decision ≡ allow
unscreenable_name_allowed name raw country dob h =
    screen_subject_name-decision name (build_sets raw) country dob
    ∙ ap
        (λ n.
          verdict (listed n (build_sets raw)) (near n (build_sets raw))
            (given country || given dob))
        h
    ∙ rw (empty_not_listed raw, empty_not_near raw) refl
