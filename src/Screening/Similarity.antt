-- ===== src/Screening/Similarity.antt =====
-- The trigram similarity of `screen_subject_name` in ProofRail/service/screening.py, and its search
-- for the closest listed name. A set is a list without duplicates, in the order in which Python
-- runs through it.
pub mod Closest
use proofrail_evidence_api.Screening.Names.{Codes, contains, add}
use proofrail_evidence_api.Screening.Fraction.{Fraction, gt}
use proofrail_evidence_api.Prelude.{
  ◌≤◌, ◌<◌, String, ◌&&◌, List, [], ◌∷◌, ◌++◌, arith, length, filter, length-filter-le,
  length-append, Option, none, some, ◌==◌, if◌then◌else◌,
}

-- the slices of three, one for each position
unfoldable pub windows : Codes → List Codes
windows [] = []
windows (a ∷ []) = []
windows (a ∷ b ∷ []) = []
windows (a ∷ b ∷ c ∷ s) = (a ∷ b ∷ c ∷ []) ∷ windows (b ∷ c ∷ s)

-- the set with the elements of a list added
unfoldable pub union : List Codes → List Codes → List Codes
union out [] = out
union out (x ∷ xs) = union (add x out) xs

unfoldable pub trigrams : Codes → List Codes
trigrams s = union [] (windows (32 ∷ s ++ 32 ∷ []))

unfoldable pub jaccard : List Codes → List Codes → Fraction
jaccard ta tb =
    let denom = length (union ta tb) in
    if length ta == 0 && length tb == 0
    then record { num = 1; den = 1 }
    else if denom == 0
    then record { num = 0; den = 1 }
    else record { num = length (filter (λ t. contains t tb) ta); den = denom }

unfoldable pub trigram_jaccard : Codes → Codes → Fraction
trigram_jaccard a b = jaccard (trigrams a) (trigrams b)

-- `best_src` and `best_sim`
pub record Best : Type 0 where
  pub src : Option String
  pub sim : Fraction

unfoldable pub keep_best : String → Fraction → Best → Best
keep_best src sim best = if gt sim best.sim then record { src = some src; sim = sim } else best

unfoldable pub best_in : Codes → String → List Codes → Best → Best
best_in name src [] best = best
best_in name src (cand ∷ names) best =
    best_in name src names (keep_best src (trigram_jaccard name cand) best)

abbrev pub NameSets : Type 0
NameSets = List (String × List Codes)

unfoldable pub best_over : Codes → NameSets → Best → Best
best_over name [] best = best
best_over name ((src, names) ∷ sets) best = best_over name sets (best_in name src names best)

unfoldable pub closest : Codes → NameSets → Best
closest name sets = best_over name sets (record { src = none; sim = record { num = 0; den = 1 } })

length-add-le : (x : Codes) (xs : List Codes) → length xs ≤ length (add x xs)
unfolding add
length-add-le x xs = ground (arith, length-append xs (x ∷ []))

pub length-union-le : (out xs : List Codes) → length out ≤ length (union out xs)
unfolding union
length-union-le out [] = omega arith
length-union-le out (x ∷ xs) = omega (arith, length-add-le x out, length-union-le (add x out) xs)

-- a fraction between 0 and 1
abbrev pub IsRatio : Fraction → Type 0
IsRatio a = (0 < a.den) × (a.num ≤ a.den)

jaccard-IsRatio : (ta tb : List Codes) → IsRatio (jaccard ta tb)
unfolding jaccard
jaccard-IsRatio ta tb =
    ground (arith, length-union-le ta tb, length-filter-le (λ t. contains t tb) ta)

pub trigram_jaccard-IsRatio : (a b : Codes) → IsRatio (trigram_jaccard a b)
unfolding trigram_jaccard
trigram_jaccard-IsRatio a b = jaccard-IsRatio (trigrams a) (trigrams b)
