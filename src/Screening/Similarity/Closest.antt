-- ===== src/Screening/Similarity/Closest.antt =====
-- What the search of `screen_subject_name` for the closest listed name finds.
use proofrail_evidence_api.Screening.Names.{Codes}
use proofrail_evidence_api.Screening.Fraction.{Fraction, gt, gt_asymmetric, close, close_mono}
use proofrail_evidence_api.Screening.Similarity.{
  trigram_jaccard, trigram_jaccard-IsRatio, IsRatio, Best, keep_best, best_in, NameSets, best_over,
  closest,
}
use proofrail_evidence_api.Prelude.{
  All-imp, ◌≢◌, Any, ap, sym, ◌∙◌, some, ◌⊎◌, refl, All-imp, ◌≢◌, Any, ap, sym, ◌∙◌, some, ◌⊎◌,
  refl, List, [], ◌∷◌, All, refl, ◌≡◌, ◌⊎◌, refl, ap, ◌∙◌, sym, String, true, List, [], ◌∷◌, arith,
  none, some, All, Any, Bool-cases, inl, inr,
}

-- a source only with a similarity, and that a ratio
IsBest : Best → Type 0
IsBest best = IsRatio best.sim × (best.src ≡ none → best.sim.num ≡ 0)

IsBest-IsRatio : (best : Best) → IsBest best → IsRatio best.sim
unfolding IsBest
IsBest-IsRatio best h = h.0

keep_best-cases :
    (src : String) (sim : Fraction) (best : Best)
    → (keep_best src sim best ≡ best)
      ⊎ (keep_best src sim best ≡ record { src = some src; sim = sim })
unfolding keep_best
keep_best-cases src sim best = elim (Bool-cases (gt sim best.sim)) [
  | inl e ↦ inr (rw e refl)
  | inr e ↦ inl (rw e refl)
]

keep_best-IsBest :
    (src : String) (sim : Fraction) (best : Best)
    → IsRatio sim
    → IsBest best
    → IsBest (keep_best src sim best)
unfolding IsBest keep_best
keep_best-IsBest src sim best hs hb = elim (Bool-cases (gt sim best.sim)) [
  | inl e ↦ rw e (hs, λ h. absurd (ground (arith, h)))
  | inr e ↦ rw e hb
]

-- the kept similarity is close if either is
keep_best-close :
    (src : String) (sim : Fraction) (best : Best)
    → IsRatio sim
    → IsRatio best.sim
    → (close best.sim ≡ true) ⊎ (close sim ≡ true)
    → close (keep_best src sim best).sim ≡ true
unfolding keep_best
keep_best-close src sim best hs hb h = elim (Bool-cases (gt sim best.sim)) [
  | inl e ↦
      rw e (elim h [
        | inl k ↦ close_mono best.sim sim hb.0 (gt_asymmetric sim best.sim e) k
        | inr k ↦ k
      ])
  | inr e ↦ rw e (elim h [ inl k ↦ k | inr k ↦ close_mono sim best.sim hs.0 e k ])
]

module _ (name : Codes) where
  -- if a name of the list is close, so is the best
  abbrev pub Meets : Best → List Codes → Type 0
  Meets best = All (λ cand. close (trigram_jaccard name cand) ≡ true → close best.sim ≡ true)

  -- as good as the best before, and as every name of the list
  abbrev Improves : Best → List Codes → Best → Type 0
  Improves best names later =
      IsBest later × ((close best.sim ≡ true → close later.sim ≡ true) × Meets later names)

  best_in-Improves :
      (src : String) (names : List Codes) (best : Best)
      → IsBest best
      → Improves best names (best_in name src names best)
  unfolding best_in
  best_in-Improves src [] best h = (h, ((λ k. k), tt))
  best_in-Improves src (cand ∷ names) best h =
      let ratio = trigram_jaccard-IsRatio name cand in
      let kept = keep_best src (trigram_jaccard name cand) best in
      let rest =
        best_in-Improves src names kept
          (keep_best-IsBest src (trigram_jaccard name cand) best ratio h) in
      let step =
        keep_best-close src (trigram_jaccard name cand) best ratio (IsBest-IsRatio best h) in
      (rest.0, ((λ k. rest.1.0 (step (inl k))), ((λ k. rest.1.0 (step (inr k))), rest.1.1)))

  abbrev pub MeetsAll : Best → NameSets → Type 0
  MeetsAll best = All (λ (set : String × List Codes). Meets best set.1)

  best_over-Improves :
      (sets : NameSets) (best : Best)
      → IsBest best
      → IsBest (best_over name sets best)
        × ((close best.sim ≡ true → close (best_over name sets best).sim ≡ true)
            × MeetsAll (best_over name sets best) sets)
  unfolding best_over
  best_over-Improves [] best h = (h, ((λ k. k), tt))
  best_over-Improves ((src, names) ∷ sets) best h =
      let first = best_in-Improves src names best h in
      let rest = best_over-Improves sets (best_in name src names best) first.0 in
      let met =
        All-imp
          {Q = λ cand.
            close (trigram_jaccard name cand) ≡ true
            → close (best_over name sets (best_in name src names best)).sim ≡ true}
          (λ cand f k. rest.1.0 (f k)) names first.1.1 in
      (rest.0, ((λ k. rest.1.0 (first.1.0 k)), (met, rest.1.1)))

  -- the best is close if any listed name is
  pub closest-MeetsAll : (sets : NameSets) → MeetsAll (closest name sets) sets
  unfolding closest IsBest
  closest-MeetsAll sets = (best_over-Improves sets _ ((omega arith, omega arith), λ h. refl)).1.1

  closest-IsBest : (sets : NameSets) → IsBest (closest name sets)
  unfolding closest IsBest
  closest-IsBest sets = (best_over-Improves sets _ ((omega arith, omega arith), λ h. refl)).0

  pub closest-IsRatio : (sets : NameSets) → IsRatio (closest name sets).sim
  closest-IsRatio sets = IsBest-IsRatio (closest name sets) (closest-IsBest sets)

  -- a close best has a source
  pub closest_source :
      (sets : NameSets) → close (closest name sets).sim ≡ true → (closest name sets).src ≢ none
  unfolding IsBest close
  closest_source sets k e =
      let h = closest-IsBest sets in let zero_sim = h.1 e in ground (arith, h.0, zero_sim, k)

  -- the source of the best, if it has one, holds a name of that similarity
  abbrev pub Holds : Best → String × List Codes → Type 0
  Holds best set =
      (best.src ≡ some set.0) × Any (λ cand. trigram_jaccard name cand ≡ best.sim) set.1

  best_in_found :
      (src : String) (names : List Codes) (best : Best)
      → (best_in name src names best ≡ best) ⊎ Holds (best_in name src names best) (src, names)
  unfolding best_in
  best_in_found src [] best = inl refl
  best_in_found src (cand ∷ names) best =
      elim (best_in_found src names (keep_best src (trigram_jaccard name cand) best)) [
        | inr (s, later) ↦ inr (s, inr later)
        | inl same ↦ elim (keep_best-cases src (trigram_jaccard name cand) best) [
          | inl old ↦ inl (same ∙ old)
          | inr new ↦ inr (ap (λ b. b.src) (same ∙ new), inl (sym (ap (λ b. b.sim) (same ∙ new))))
        ]
      ]

  best_over_found :
      (sets : NameSets) (best : Best)
      → (best_over name sets best ≡ best) ⊎ Any (Holds (best_over name sets best)) sets
  unfolding best_over
  best_over_found [] best = inl refl
  best_over_found ((src, names) ∷ sets) best =
      elim (best_over_found sets (best_in name src names best)) [
        | inr later ↦ inr (inr later)
        | inl same ↦ elim (best_in_found src names best) [
          | inl kept ↦ inl (same ∙ kept)
          | inr found ↦ inr (inl (rw same found))
        ]
      ]

  -- the search returns nothing, or a source with a name of the similarity it returns
  pub closest_found :
      (sets : NameSets) → ((closest name sets).src ≡ none) ⊎ Any (Holds (closest name sets)) sets
  unfolding closest
  closest_found sets =
      elim (best_over_found sets (record { src = none; sim = record { num = 0; den = 1 } })) [
        | inl same ↦ inl (ap (λ b. b.src) same)
        | inr found ↦ inr found
      ]
