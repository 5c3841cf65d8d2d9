-- ===== src/Screening/Decide/Verdicts.antt =====
-- The decision of `screen_subject_name` by three tests that no order of the lists enters.
use proofrail_evidence_api.Screening.Names.{Codes, contains}
use proofrail_evidence_api.Screening.Fraction.{close, round_percent, round_percent-close}
use proofrail_evidence_api.Screening.Similarity.{NameSets, closest, trigram_jaccard}
use proofrail_evidence_api.Screening.Similarity.Closest.{
  closest-MeetsAll, closest-IsRatio, closest_source, closest_found,
}
use proofrail_evidence_api.Screening.Decide.{
  given, normalise_name, sorted_sources, screen_subject_name, fuzzy_result, exact, sources_with,
  fuzzy, first_match, disambiguate, ScreeningResult, Decision, allow, block, review,
}
use proofrail_evidence_api.Table.{length-order_by}
use proofrail_evidence_api.Prelude.{
  ◌||◌, not, length, text_lt, Option, ℕ, length, none, All-imp, ◌∙◌, ap, sym, Option-cases, some,
  ◌⊎◌, ◌≡◌, ◌⊎◌, refl, ap, ◌∙◌, sym, String, Bool, true, false, List, [], ◌∷◌, arith, some, All,
  Any, any, if◌then◌else◌, Bool-cases, Option-cases, inl, inr, leb,
}

-- some list holds the name
unfoldable pub listed : Codes → NameSets → Bool
listed name = any (λ (set : String × List Codes). contains name set.1)

-- some list holds a close name
unfoldable pub near : Codes → NameSets → Bool
near name =
    any (λ (set : String × List Codes). any (λ cand. close (trigram_jaccard name cand)) set.1)

-- the decision on a name that is listed, is near a listed one, and comes with attributes
abbrev pub verdict : Bool → Bool → Bool → Decision
verdict true close_name attributes = if attributes then review else block
verdict false true attributes = review
verdict false false attributes = allow

module _ {A : Type 0} (p : A → Bool) where
  any-true : (xs : List A) → Any (λ x. p x ≡ true) xs → any p xs ≡ true
  any-true [] h = absurd h
  any-true (x ∷ xs) (inl e) = rw e refl
  any-true (x ∷ xs) (inr h) = ground (arith, any-true xs h)

  -- what follows from the test of each element follows from the test of some
  any-All : {C : Type 0} (xs : List A) → All (λ x. p x ≡ true → C) xs → any p xs ≡ true → C
  any-All [] h k = absurd (ground (arith, k))
  any-All (x ∷ xs) h k = elim (Bool-cases (p x)) [
    | inl e ↦ h.0 e
    | inr e ↦ any-All xs h.1 (ground (arith, k, e))
  ]

module _ {A : Type 0} {P Q : A → Type 0} where
  Any-imp : ((x : A) → P x → Q x) → (xs : List A) → Any P xs → Any Q xs
  Any-imp f [] h = absurd h
  Any-imp f (x ∷ xs) (inl h) = inl (f x h)
  Any-imp f (x ∷ xs) (inr h) = inr (Any-imp f xs h)

module _ (name : Codes) (sets : NameSets) where
  near→close : near name sets ≡ true → close (closest name sets).sim ≡ true
  unfolding near
  near→close =
      any-All (λ (set : String × List Codes). any (λ cand. close (trigram_jaccard name cand)) set.1)
        sets
        (All-imp
          {Q = λ (set : String × List Codes).
            any (λ cand. close (trigram_jaccard name cand)) set.1 ≡ true
            → close (closest name sets).sim ≡ true}
          (λ set. any-All (λ cand. close (trigram_jaccard name cand)) set.1) sets
          (closest-MeetsAll name sets))

  close→near : close (closest name sets).sim ≡ true → near name sets ≡ true
  unfolding near
  close→near k = elim (closest_found name sets) [
    | inl e ↦ absurd (closest_source name sets k e)
    | inr found ↦
        any-true
          (λ (set : String × List Codes). any (λ cand. close (trigram_jaccard name cand)) set.1)
          sets
          (Any-imp
            (λ set h.
              any-true (λ cand. close (trigram_jaccard name cand)) set.1
                (Any-imp (λ cand e. ap close e ∙ k) set.1 h.1))
            sets found)
  ]

  pub closest-near : close (closest name sets).sim ≡ near name sets
  closest-near = elim (Bool-cases (near name sets)) [
    | inl e ↦ near→close e ∙ sym e
    | inr e ↦ elim (Bool-cases (close (closest name sets).sim)) [
      | inl k ↦ k ∙ sym (close→near k)
      | inr k ↦ k ∙ sym e
    ]
  ]

  -- the score of the closest name passes the test exactly if some listed name is near
  pub score-near : leb 90 (round_percent (closest name sets).sim) ≡ near name sets
  score-near =
      round_percent-close (closest name sets).sim (closest-IsRatio name sets).0 ∙ closest-near

  fuzzy_cases :
      ((near name sets ≡ true) × ((src : String) × (closest name sets).src ≡ some src))
      ⊎ (near name sets ≡ false)
  fuzzy_cases = elim (Bool-cases (near name sets)) [
    | inl e ↦ elim (Option-cases (closest name sets).src) [
      | inl k ↦ absurd (closest_source name sets (near→close e) k)
      | inr found ↦ inl (e, found)
    ]
    | inr e ↦ inr e
  ]

abbrev pub has_hit : List String → Bool
has_hit [] = false
has_hit (h ∷ hits) = true

abbrev pub finish : Bool → Bool → ScreeningResult → ScreeningResult
finish country dob r = disambiguate country dob r.decision r

finish-exact :
    (name : Codes) (hits : List String) (country dob b : Bool)
    → (finish country dob (exact name hits)).decision ≡ verdict true b (country || dob)
unfolding disambiguate
finish-exact name hits true true b = refl
finish-exact name hits true false b = refl
finish-exact name hits false true b = refl
finish-exact name hits false false b = refl

finish-fuzzy_result :
    (name : Codes) (score : ℕ) (src : Option String) (country dob b : Bool)
    → leb 90 score ≡ b
    → (src ≡ none → b ≡ false)
    → (finish country dob (fuzzy_result name score src)).decision ≡ verdict false b (country || dob)
unfolding disambiguate
finish-fuzzy_result name score none country dob b e h = rw (h refl) refl
finish-fuzzy_result name score (some src) country dob false e h = rw e refl
finish-fuzzy_result name score (some src) true true true e h = rw e refl
finish-fuzzy_result name score (some src) true false true e h = rw e refl
finish-fuzzy_result name score (some src) false true true e h = rw e refl
finish-fuzzy_result name score (some src) false false true e h = rw e refl

module _ (name : Codes) (sets : NameSets) where
  pub near_has_source : (closest name sets).src ≡ none → near name sets ≡ false
  near_has_source e = elim (fuzzy_cases name sets) [
    | inl (k, (src, found)) ↦ absurd (ground (arith, found, e))
    | inr k ↦ k
  ]

  finish-first_match :
      (hits : List String) (country dob : Bool)
      → (finish country dob (first_match name sets hits)).decision
        ≡ verdict (has_hit hits) (near name sets) (country || dob)
  unfolding first_match fuzzy
  finish-first_match [] country dob =
      finish-fuzzy_result name (round_percent (closest name sets).sim) (closest name sets).src
        country dob (near name sets) (score-near name sets) near_has_source
  finish-first_match (h ∷ hits) country dob =
      finish-exact name (h ∷ hits) country dob (near name sets)

has_hit_lem : (hits : List String) → has_hit hits ≡ leb 1 (length hits)
has_hit_lem [] = refl
has_hit_lem (h ∷ hits) = ground arith

length-sources_with :
    (name : Codes) (sets : NameSets) → leb 1 (length (sources_with name sets)) ≡ listed name sets
unfolding sources_with listed
length-sources_with name [] = refl
length-sources_with name ((src, names) ∷ sets) = ground (arith, length-sources_with name sets)

has_hit-listed :
    (name : Codes) (sets : NameSets) → has_hit (sorted_sources name sets) ≡ listed name sets
has_hit-listed name sets =
    has_hit_lem (sorted_sources name sets)
    ∙ ap (λ n. leb 1 n) (length-order_by (λ x y. not (text_lt y x)) (sources_with name sets))
    ∙ length-sources_with name sets

-- The decision is a block if a list holds the normalised name and neither country nor date of birth
-- is given, a review if a list holds it and one is given, or if no list holds it and some listed
-- name reaches a trigram similarity of 89.5 percent, and otherwise it is to allow. So the order of
-- the lists and of the names in them does not matter.
pub screen_subject_name-decision :
    (subject_name : Codes) (sets : NameSets) (country dob : Option String)
    → (screen_subject_name subject_name sets country dob).decision
      ≡ verdict
          (listed (normalise_name subject_name) sets)
          (near (normalise_name subject_name) sets)
          (given country || given dob)
unfolding screen_subject_name
screen_subject_name-decision subject_name sets country dob =
    let name = normalise_name subject_name in
    finish-first_match name sets (sorted_sources name sets) (given country) (given dob)
    ∙ ap (λ b. verdict b (near name sets) (given country || given dob)) (has_hit-listed name sets)
