-- ===== src/Screening/Names/Sets.antt =====
-- `normalised_name_set` holds the non-empty normalised forms of the names, and nothing else.
use proofrail_evidence_api.Prelude.{
  false, ◌∙◌, if◌then◌else◌, any, refl, ◌&&◌, inr, [], arith, inl, Bool-cases, ap, not, ◌∷◌, true,
  Bool, ◌||◌, ◌++◌, List, ◌≡◌,
}
use proofrail_evidence_api.Screening.Names.{
  List, Codes, codes_eq, contains, add, add_normalised, normalise_name, normalised_name_set,
}

pub codes_eq-eq : (s t : Codes) → codes_eq s t ≡ true → s ≡ t
codes_eq-eq [] [] h = refl
codes_eq-eq [] (d ∷ t) h = absurd (ground (arith, h))
codes_eq-eq (c ∷ s) [] h = absurd (ground (arith, h))
codes_eq-eq (c ∷ s) (d ∷ t) h =
    let heads : c ≡ d = ground (arith, h) in
    let tails = codes_eq-eq s t (ground (arith, h)) in λ i. heads i ∷ tails i

pub codes_eq_self : (s : Codes) → codes_eq s s ≡ true
codes_eq_self [] = refl
codes_eq_self (c ∷ s) = ground (arith, codes_eq_self s)

contains-append :
    (x : Codes) (xs ys : List Codes) → contains x (xs ++ ys) ≡ (contains x xs || contains x ys)
unfolding contains
contains-append x [] ys = refl
contains-append x (y ∷ xs) ys = ground (arith, contains-append x xs ys)

-- a name equal to one of the set is in it
contains-same :
    (x y : Codes) (xs : List Codes) → codes_eq x y ≡ true → contains x xs ≡ contains y xs
contains-same x y xs h = ap (λ z. contains z xs) (codes_eq-eq x y h)

contains-add :
    (x y : Codes) (xs : List Codes) → contains x (add y xs) ≡ (contains x xs || codes_eq x y)
unfolding add
contains-add x y xs = elim (Bool-cases (contains y xs)) [
  | inl old ↦ rw old (elim (Bool-cases (codes_eq x y)) [
    | inl same ↦ ground (arith, same, contains-same x y xs same, old)
    | inr other ↦ ground (arith, other)
  ])
  | inr new ↦ rw new (unfold contains in ground (arith, contains-append x xs (y ∷ [])))
]

-- the text is not empty, and one of the names has it as its normalised form
abbrev pub normal_form_of : Codes → List Codes → Bool
normal_form_of x names = not (codes_eq x []) && any (λ name. codes_eq x (normalise_name name)) names

pair_eq : (x y z : Codes) → y ≡ z → codes_eq x y ≡ codes_eq x z
pair_eq x y z h = ap (codes_eq x) h

contains-keep :
    (x : Codes) (name : Codes) (out : List Codes)
    → contains x (if codes_eq (normalise_name name) [] then out else add (normalise_name name) out)
      ≡ (contains x out || (not (codes_eq x []) && codes_eq x (normalise_name name)))
contains-keep x name out = elim (Bool-cases (codes_eq (normalise_name name) [])) [
  | inl blank ↦
      let same = pair_eq x (normalise_name name) [] (codes_eq-eq (normalise_name name) [] blank) in
      rw blank (ground (arith, same))
  | inr filled ↦ rw filled (
      contains-add x (normalise_name name) out
      ∙ elim (Bool-cases (codes_eq x (normalise_name name))) [
        | inl e ↦
            let shape : codes_eq x [] ≡ false =
              ap (λ z. codes_eq z []) (codes_eq-eq x (normalise_name name) e) ∙ filled in
            ground (arith, e, shape)
        | inr e ↦ ground (arith, e)
      ])
]

contains-add_normalised :
    (x : Codes) (names out : List Codes)
    → contains x (add_normalised names out) ≡ (contains x out || normal_form_of x names)
unfolding add_normalised
contains-add_normalised x [] out = ground arith
contains-add_normalised x (name ∷ names) out =
    contains-add_normalised x names
      (if codes_eq (normalise_name name) [] then out else add (normalise_name name) out)
    ∙ ground (arith, contains-keep x name out)

-- A text is in the normalised set of some names exactly if it is not empty and is the normalised
-- form of one of them.
pub contains-normalised_name_set :
    (x : Codes) (names : List Codes)
    → contains x (normalised_name_set names) ≡ normal_form_of x names
unfolding normalised_name_set contains
contains-normalised_name_set x names = contains-add_normalised x names []
