-- ===== src/Sanctions/Subjects/Ordered.antt =====
-- The match of the subjects does not depend on the order in which they come.
use proofrail_evidence_api.Table.Order.{Distinct}
use proofrail_evidence_api.Table.Permuted.{order_by-Perm}
use proofrail_evidence_api.Screening.Similarity.{NameSets}
use mathlib.Core.List.{Permᴰ}
use proofrail_evidence_api.Prelude.{
  String, ap, Bool, true, false, ◌≡◌, ◌||◌, List, [], ◌∷◌, map, arith, All,
}
use proofrail_evidence_api.Screening.Names.{Codes, codes_eq}
use proofrail_evidence_api.Sanctions.Subjects.{
  match_subject, deterministic_match, NameSets, Subject, Match, codes_lt,
}

codes_lt-irreflexive : (s : Codes) → codes_lt s s ≡ false
unfolding codes_lt
codes_lt-irreflexive [] = ground arith
codes_lt-irreflexive (c ∷ s) = ground (arith, codes_lt-irreflexive s)

codes_lt-transitive :
    (s t u : Codes) → codes_lt s t ≡ true → codes_lt t u ≡ true → codes_lt s u ≡ true
unfolding codes_lt
codes_lt-transitive [] [] u h k = absurd (ground (arith, h))
codes_lt-transitive [] (d ∷ t) [] h k = absurd (ground (arith, k))
codes_lt-transitive [] (d ∷ t) (e ∷ u) h k = ground arith
codes_lt-transitive (c ∷ s) [] u h k = absurd (ground (arith, h))
codes_lt-transitive (c ∷ s) (d ∷ t) [] h k = absurd (ground (arith, k))
codes_lt-transitive (c ∷ s) (d ∷ t) (e ∷ u) h k = ground (arith, h, k, codes_lt-transitive s t u)

codes_lt-total : (s t : Codes) → codes_eq s t ≡ false → (codes_lt s t || codes_lt t s) ≡ true
unfolding codes_lt
codes_lt-total [] [] h = absurd (ground (arith, h))
codes_lt-total [] (d ∷ t) h = ground arith
codes_lt-total (c ∷ s) [] h = ground arith
codes_lt-total (c ∷ s) (d ∷ t) h = ground (arith, h, codes_lt-total s t)

-- the ids are distinct
abbrev pub HasIds : List Subject → Type 0
HasIds [] = Unit
HasIds (x ∷ xs) = All (λ (y : Subject). codes_eq x.subject_id y.subject_id ≡ false) xs × HasIds xs

abbrev after : Match → Match → Bool
after x y = codes_lt y.subject_id x.subject_id

module _ {A B : Type 0} (f : A → B) where
  Permᴰ-map : (xs ys : List A) → Permᴰ xs ys → Permᴰ (map f xs) (map f ys)
  Permᴰ-map _ _ Permᴰ.nil = Permᴰ.nil
  Permᴰ-map (a ∷ xs) (b ∷ ys) (Permᴰ.cons e p) = Permᴰ.cons (ap f e) (Permᴰ-map xs ys p)
  Permᴰ-map (a ∷ b ∷ xs) (c ∷ d ∷ _) (Permᴰ.swap e g) = Permᴰ.swap (ap f e) (ap f g)
  Permᴰ-map xs ys (Permᴰ.trans {l₂} p q) = Permᴰ.trans (Permᴰ-map xs l₂ p) (Permᴰ-map l₂ ys q)

module _ (sets : NameSets) (list_version run : String) where
  abbrev matched : List Subject → List Match
  matched subjects = map (match_subject sets list_version run) subjects

  All-matched :
      (x : Subject) (ys : List Subject)
      → All (λ (y : Subject). codes_eq x.subject_id y.subject_id ≡ false) ys
      → All
          (λ z.
            (after (match_subject sets list_version run x) z
              || after z (match_subject sets list_version run x))
            ≡ true)
          (matched ys)
  unfolding match_subject
  All-matched x [] h = tt
  All-matched x (y ∷ ys) h =
      (ground (arith, codes_lt-total x.subject_id y.subject_id, h.0), All-matched x ys h.1)

  matched-Distinct : (subjects : List Subject) → HasIds subjects → Distinct after (matched subjects)
  matched-Distinct [] h = tt
  matched-Distinct (x ∷ xs) h = (All-matched x xs h.0, matched-Distinct xs h.1)

-- Subjects with distinct ids have the same matches, in the same order, and the same hash of them, in
-- whatever order the subjects come.
pub deterministic_match-Perm :
    (hash : List Match → String) (subjects others : List Subject) (sets : NameSets)
    (list_version run : String)
    → Permᴰ subjects others
    → HasIds subjects
    → deterministic_match hash subjects sets list_version run
      ≡ deterministic_match hash others sets list_version run
unfolding deterministic_match
deterministic_match-Perm hash subjects others sets list_version run p ids =
    ap (λ output. (output, hash output))
      (order_by-Perm after (λ x. codes_lt-irreflexive x.subject_id)
        (λ x y z h k. codes_lt-transitive z.subject_id y.subject_id x.subject_id k h)
        (matched sets list_version run subjects) (matched sets list_version run others)
        (Permᴰ-map (match_subject sets list_version run) subjects others p)
        (matched-Distinct sets list_version run subjects ids))
