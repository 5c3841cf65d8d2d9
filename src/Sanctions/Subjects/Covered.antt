-- ===== src/Sanctions/Subjects/Covered.antt =====
-- The subjects of `build_subjects` cover the reference names, up to the limit.
use proofrail_evidence_api.Sanctions.Subjects.Unique.{
  unique_names-Good, Seen-snoc, contains-append, map-snoc, Seen, Good,
}
use proofrail_evidence_api.Prelude.{
  length-append, ◌+◌, ◌≤◌, inr, sym, refl, suc, inl, ◌&&◌, leb, ◌||◌, All, ap, arith, Bool-cases,
  true, false, ◌<◌, ◌++◌, max, not, ◌∷◌, [], length, Bool, map, ◌≡◌, ℕ, List,
}
use proofrail_evidence_api.Sanctions.Subjects.{negatives, build_subjects, number, unique_names}
use mathlib.Core.Path.{subst}
use proofrail_evidence_api.Screening.Names.{normalise_name, contains, codes_eq, Codes}

-- a name whose normal form is empty, or with the same normalised form as a subject
abbrev pub Covered : List Codes → Codes → Type 0
Covered unique name =
    (codes_eq (normalise_name name) []
      || contains (normalise_name name) (map normalise_name unique))
    ≡ true

contains-snoc :
    (x name : Codes) (unique : List Codes)
    → contains x (map normalise_name (unique ++ name ∷ []))
      ≡ contains x (map normalise_name unique) || codes_eq x (normalise_name name)
unfolding contains
contains-snoc x name unique =
    rw (map-snoc name unique)
      (ground (arith, contains-append x (map normalise_name unique) (normalise_name name ∷ [])))

-- no subject is dropped
unique_names_keeps :
    (x : Codes) (m : ℕ) (seen unique names : List Codes)
    → contains x (map normalise_name unique) ≡ true
    → contains x (map normalise_name (unique_names m seen unique names)) ≡ true
unfolding unique_names
unique_names_keeps x m seen unique [] h = h
unique_names_keeps x m seen unique (name ∷ names) h =
    elim (Bool-cases
      (not (codes_eq (normalise_name name) []) && not (contains (normalise_name name) seen))) [
        | inl fresh ↦
            let later : contains x (map normalise_name (unique ++ name ∷ [])) ≡ true =
              ground (arith, contains-snoc x name unique, h) in
            elim (Bool-cases (leb m (length (unique ++ name ∷ [])))) [
              | inl full ↦ rw (fresh, full) later
              | inr more ↦
                  rw (fresh, more)
                    (unique_names_keeps x m (normalise_name name ∷ seen) (unique ++ name ∷ []) names
                      later)
            ]
        | inr stale ↦ elim (Bool-cases (leb m (length unique))) [
          | inl full ↦ rw (stale, full) h
          | inr more ↦ rw (stale, more) (unique_names_keeps x m seen unique names h)
        ]
      ]

codes_eq_refl : (s : Codes) → codes_eq s s ≡ true
codes_eq_refl [] = refl
codes_eq_refl (c ∷ s) = ground (arith, codes_eq_refl s)

-- the test of the loop
abbrev is_fresh : List Codes → Codes → Bool
is_fresh seen name =
    not (codes_eq (normalise_name name) []) && not (contains (normalise_name name) seen)

step_fresh :
    (m : ℕ) (seen unique : List Codes) (name : Codes) (names : List Codes)
    → is_fresh seen name ≡ true
    → leb m (length (unique ++ name ∷ [])) ≡ false
    → unique_names m seen unique (name ∷ names)
      ≡ unique_names m (normalise_name name ∷ seen) (unique ++ name ∷ []) names
unfolding unique_names
step_fresh m seen unique name names fresh more = rw (fresh, more) refl

step_stale :
    (m : ℕ) (seen unique : List Codes) (name : Codes) (names : List Codes)
    → is_fresh seen name ≡ false
    → leb m (length unique) ≡ false
    → unique_names m seen unique (name ∷ names) ≡ unique_names m seen unique names
unfolding unique_names
step_stale m seen unique name names stale more = rw (stale, more) refl

full_fresh :
    (m : ℕ) (seen unique : List Codes) (name : Codes) (names : List Codes)
    → is_fresh seen name ≡ true
    → length (unique_names m seen unique (name ∷ names)) < m
    → leb m (length (unique ++ name ∷ [])) ≡ false
unfolding unique_names
full_fresh m seen unique name names fresh room = ground (arith, room, fresh)

full_stale :
    (m : ℕ) (seen unique : List Codes) (name : Codes) (names : List Codes)
    → is_fresh seen name ≡ false
    → length (unique_names m seen unique (name ∷ names)) < m
    → leb m (length unique) ≡ false
unfolding unique_names
full_stale m seen unique name names stale room = ground (arith, room, stale)

-- a name that is not fresh is covered by the names so far, and so by all
stale-Covered :
    (m : ℕ) (seen unique names : List Codes) (name : Codes)
    → Seen seen unique
    → is_fresh seen name ≡ false
    → Covered (unique_names m seen unique names) name
stale-Covered m seen unique names name s stale =
    elim (Bool-cases (codes_eq (normalise_name name) [])) [
      | inl blank ↦ ground (arith, blank)
      | inr filled ↦
          let old : contains (normalise_name name) (map normalise_name unique) ≡ true =
            ground (arith, stale, filled, s (normalise_name name)) in
          ground (arith, unique_names_keeps (normalise_name name) m seen unique names old)
    ]

unique_names-Covered :
    (m : ℕ) (seen unique names : List Codes)
    → Seen seen unique
    → length (unique_names m seen unique names) < m
    → All (Covered (unique_names m seen unique names)) names
unique_names-Covered m seen unique [] s room = tt
unique_names-Covered m seen unique (name ∷ names) s room = elim (Bool-cases (is_fresh seen name)) [
  | inl fresh ↦
      let e =
        step_fresh m seen unique name names fresh
          (full_fresh m seen unique name names fresh room) in
      let here : contains (normalise_name name) (map normalise_name (unique ++ name ∷ [])) ≡ true =
        ground (
          arith,
          contains-snoc (normalise_name name) name unique,
          codes_eq_refl (normalise_name name),
        ) in
      let kept =
        unique_names_keeps (normalise_name name) m (normalise_name name ∷ seen)
          (unique ++ name ∷ []) names here in
      subst (λ r. All (Covered r) (name ∷ names)) (sym e)
        (
          ground (arith, kept),
          unique_names-Covered m (normalise_name name ∷ seen) (unique ++ name ∷ []) names
              (Seen-snoc name seen unique s) (ground (arith, room, ap length e)),
        )
  | inr stale ↦
      let e =
        step_stale m seen unique name names stale
          (full_stale m seen unique name names stale room) in
      subst (λ r. All (Covered r) (name ∷ names)) (sym e)
        (
          stale-Covered m seen unique names name s stale,
          unique_names-Covered m seen unique names s (ground (arith, room, ap length e)),
        )
]

length-number : (idx : ℕ) (names : List Codes) → length (number idx names) ≡ length names
unfolding number
length-number idx [] = refl
length-number idx (name ∷ names) = ap suc (length-number (suc idx) names)

-- The reference names that become subjects have distinct, non-empty normalised names, and are at most
-- the limit (one for a limit of zero); with the three that are always there, the subjects are at most
-- three more.
pub build_subjects_unique :
    (reference_names : List Codes) (max_subjects : ℕ)
    → Good (max 1 max_subjects) (unique_names max_subjects [] [] reference_names)
      × (length (build_subjects reference_names max_subjects) ≤ max 1 max_subjects + 3)
build_subjects_unique reference_names m =
    let good =
      unique_names-Good m [] [] reference_names (λ x. refl) (omega arith) (tt, (tt, omega arith)) in
    (
      good,
      unfold build_subjects in
          omega (
            arith,
            length-append (number 0 (unique_names m [] [] reference_names)) negatives,
            length-number 0 (unique_names m [] [] reference_names),
            good.1.1,
          ),
    )

-- If fewer reference names become subjects than the limit allows, then every reference name whose
-- normal form is not empty has the normalised name of one of them.
pub reference_names-Covered :
    (reference_names : List Codes) (max_subjects : ℕ)
    → length (unique_names max_subjects [] [] reference_names) < max_subjects
    → All (Covered (unique_names max_subjects [] [] reference_names)) reference_names
reference_names-Covered reference_names m room =
    unique_names-Covered m [] [] reference_names (λ x. refl) room
