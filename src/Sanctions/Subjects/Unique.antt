-- ===== src/Sanctions/Subjects/Unique.antt =====
-- The subjects of `build_subjects`: how many they are, and that no two are the same person.
use proofrail_evidence_api.Prelude.{
  inr, leb, inl, ◌&&◌, not, length-append, Bool-cases, max, All-append, ◌≤◌, ◌<◌, length, All, ℕ,
  refl, ◌||◌, ap, arith, ◌++◌, map, ◌∷◌, false, ◌≡◌, List, [],
}
use proofrail_evidence_api.Screening.Names.{Codes, codes_eq, normalise_name, contains}
use proofrail_evidence_api.Sanctions.Subjects.{unique_names}

-- no element comes again after itself
abbrev pub Unique : List Codes → Type 0
Unique [] = Unit
Unique (x ∷ xs) = (contains x xs ≡ false) × Unique xs

abbrev IsFilled : Codes → Type 0
IsFilled name = codes_eq (normalise_name name) [] ≡ false

pub codes_eq_sym : (s t : Codes) → codes_eq s t ≡ codes_eq t s
codes_eq_sym [] [] = refl
codes_eq_sym [] (d ∷ t) = refl
codes_eq_sym (c ∷ s) [] = refl
codes_eq_sym (c ∷ s) (d ∷ t) = ground (arith, codes_eq_sym s t)

pub contains-append :
    (x : Codes) (xs ys : List Codes) → contains x (xs ++ ys) ≡ contains x xs || contains x ys
unfolding contains
contains-append x [] ys = refl
contains-append x (y ∷ xs) ys = ground (arith, contains-append x xs ys)

Unique-snoc :
    (x : Codes) (xs : List Codes) → contains x xs ≡ false → Unique xs → Unique (xs ++ x ∷ [])
unfolding contains
Unique-snoc x [] h u = (refl, tt)
Unique-snoc x (y ∷ xs) h u = (
  ground (arith, h, u.0, codes_eq_sym y x, contains-append y xs (x ∷ [])),
  Unique-snoc x xs (ground (arith, h)) u.1,
)

abbrev pub Seen : List Codes → List Codes → Type 0
Seen seen unique = (x : Codes) → contains x seen ≡ contains x (map normalise_name unique)

pub map-snoc :
    (name : Codes) (names : List Codes)
    → map normalise_name (names ++ name ∷ []) ≡ map normalise_name names ++ normalise_name name ∷ []
map-snoc name [] = refl
map-snoc name (n ∷ names) = ap (λ xs. normalise_name n ∷ xs) (map-snoc name names)

pub Seen-snoc :
    (name : Codes) (seen unique : List Codes)
    → Seen seen unique
    → Seen (normalise_name name ∷ seen) (unique ++ name ∷ [])
unfolding contains
Seen-snoc name seen unique h x =
    rw (map-snoc name unique) (
      ground (arith, h x, contains-append x (map normalise_name unique) (normalise_name name ∷ [])))

abbrev pub Good : ℕ → List Codes → Type 0
Good limit unique =
    Unique (map normalise_name unique) × (All IsFilled unique × (length unique ≤ limit))

Good-snoc :
    (limit : ℕ) (name : Codes) (unique : List Codes)
    → Good limit unique
    → length unique < limit
    → IsFilled name
    → contains (normalise_name name) (map normalise_name unique) ≡ false
    → Good limit (unique ++ name ∷ [])
Good-snoc limit name unique h room filled new = (
  rw (map-snoc name unique) (Unique-snoc (normalise_name name) (map normalise_name unique) new h.0),
  (
    All-append IsFilled unique (name ∷ []) h.1.0 (filled, tt),
    omega (arith, length-append unique (name ∷ [])),
  ),
)

pub unique_names-Good :
    (m : ℕ) (seen unique names : List Codes)
    → Seen seen unique
    → length unique < max 1 m
    → Good (max 1 m) unique
    → Good (max 1 m) (unique_names m seen unique names)
unfolding unique_names
unique_names-Good m seen unique [] s room h = h
unique_names-Good m seen unique (name ∷ names) s room h =
    elim (Bool-cases
      (not (codes_eq (normalise_name name) []) && not (contains (normalise_name name) seen))) [
        | inl fresh ↦
            let added =
              Good-snoc (max 1 m) name unique h room (ground (arith, fresh))
                (ground (arith, fresh, s (normalise_name name))) in
            elim (Bool-cases (leb m (length (unique ++ name ∷ [])))) [
              | inl full ↦ rw (fresh, full) added
              | inr more ↦
                  rw (fresh, more)
                    (unique_names-Good m (normalise_name name ∷ seen) (unique ++ name ∷ []) names
                      (Seen-snoc name seen unique s) (ground (arith, more)) added)
            ]
        | inr stale ↦ elim (Bool-cases (leb m (length unique))) [
          | inl full ↦ rw (stale, full) h
          | inr more ↦ rw (stale, more) (unique_names-Good m seen unique names s room h)
        ]
      ]
