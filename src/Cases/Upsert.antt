-- ===== src/Cases/Upsert.antt =====
-- What `upsert_case` keeps and what it changes.
use proofrail_evidence_api.Prelude.{
  ◌⊎◌, String, Bool, true, false, Option, none, some, List, [], ◌∷◌, ◌++◌, ◌≡◌, ap, sym, ◌∙◌, refl,
  arith, str_eq, eq_iff, if◌then◌else◌, find?, any, Bool-cases, inl, inr, All-append,
}
use proofrail_evidence_api.Table.{update_where, All-update_where}
use proofrail_evidence_api.Cases.{
  Case, CaseTables, excluded, has_case, has_screening, upsert_case, get_case,
}
use proofrail_evidence_api.Cases.Listing.{HasIds}

find-update_where :
    (id : String) (c : Case) (cs : List Case)
    → find?
        (λ (r : Case). str_eq r.case_id id)
        (update_where (λ (r : Case). str_eq r.case_id c.case_id) (excluded c) cs)
      ≡ (elim (find? (λ (r : Case). str_eq r.case_id id) cs) [
        | none ↦ none
        | some r ↦ if str_eq c.case_id id then some (excluded c r) else some r
      ])
unfolding update_where
find-update_where id c [] = refl
find-update_where id c (r ∷ cs) = ground (
  arith,
  find-update_where id c cs,
  eq_iff r.case_id id,
  eq_iff r.case_id c.case_id,
  eq_iff c.case_id id,
)

find-append :
    (id : String) (c : Case) (cs : List Case)
    → find? (λ (r : Case). str_eq r.case_id id) (cs ++ c ∷ [])
      ≡ (elim (find? (λ (r : Case). str_eq r.case_id id) cs) [
        | none ↦ if str_eq c.case_id id then some c else none
        | some r ↦ some r
      ])
find-append id c [] = ground arith
find-append id c (r ∷ cs) = ground (arith, find-append id c cs)

any-find :
    (id : String) (cs : List Case)
    → any (λ (r : Case). str_eq r.case_id id) cs
      ≡ (elim (find? (λ (r : Case). str_eq r.case_id id) cs) [ none ↦ false | some r ↦ true ])
any-find id [] = refl
any-find id (r ∷ cs) = ground (arith, any-find id cs)

-- whether there is a case with the id of `c`, at any text equal to it
any_same :
    (c : Case) (id : String) (cs : List Case) (b : Bool)
    → any (λ (r : Case). str_eq r.case_id c.case_id) cs ≡ b
    → str_eq c.case_id id ≡ true
    → any (λ (r : Case). str_eq r.case_id id) cs ≡ b
any_same c id cs b h e =
    ap (λ k. any (λ (r : Case). str_eq r.case_id k) cs) (sym ((eq_iff c.case_id id).0 e)) ∙ h

-- what is read at an id after an upsert of `c`
abbrev pub upserted : Case → String → Option Case → Option Case
upserted c id none = if str_eq c.case_id id then some c else none
upserted c id (some r) = if str_eq c.case_id id then some (excluded c r) else some r

find_updated :
    (c : Case) (cs : List Case) (id : String)
    → any (λ (r : Case). str_eq r.case_id c.case_id) cs ≡ true
    → find?
        (λ (r : Case). str_eq r.case_id id)
        (update_where (λ (r : Case). str_eq r.case_id c.case_id) (excluded c) cs)
      ≡ upserted c id (find? (λ (r : Case). str_eq r.case_id id) cs)
find_updated c cs id h = elim (Bool-cases (str_eq c.case_id id)) [
  | inl e ↦ ground (arith, find-update_where id c cs, e, any-find id cs, any_same c id cs true h e)
  | inr e ↦ ground (arith, find-update_where id c cs, e)
]

find_added :
    (c : Case) (cs : List Case) (id : String)
    → any (λ (r : Case). str_eq r.case_id c.case_id) cs ≡ false
    → find? (λ (r : Case). str_eq r.case_id id) (cs ++ c ∷ [])
      ≡ upserted c id (find? (λ (r : Case). str_eq r.case_id id) cs)
find_added c cs id h = elim (Bool-cases (str_eq c.case_id id)) [
  | inl e ↦ ground (arith, find-append id c cs, e, any-find id cs, any_same c id cs false h e)
  | inr e ↦ ground (arith, find-append id c cs, e)
]

-- An upsert either fails, because the case is new and its screening is not there, or changes one case
-- only: a new one is stored as given, and one that exists keeps its creation time, customer and
-- screening, and its assignee unless another is given.
pub get-upsert_case :
    (c : Case) (t : CaseTables)
    → ((upsert_case c t ≡ none) × (has_screening c.screening_id t ≡ false))
      ⊎ ((t' : CaseTables) × (upsert_case c t ≡ some t')
          × ((id : String) → get_case id t' ≡ upserted c id (get_case id t)))
unfolding upsert_case get_case has_case
get-upsert_case c t = elim (Bool-cases (any (λ (r : Case). str_eq r.case_id c.case_id) t.cases)) [
  | inl e ↦ inr (
    (record t {
      cases = update_where (λ (r : Case). str_eq r.case_id c.case_id) (excluded c) t.cases;
    }),
    ground (arith, e),
    λ id. find_updated c t.cases id e,
  )
  | inr e ↦ elim (Bool-cases (has_screening c.screening_id t)) [
    | inl there ↦ inr (
      (record t { cases = t.cases ++ c ∷ [] }),
      ground (arith, e, there),
      λ id. find_added c t.cases id e,
    )
    | inr missing ↦ inl (ground (arith, e, missing), missing)
  ]
]

HasIds-update :
    (c : Case) (p : Case → Bool) (cs : List Case)
    → HasIds cs
    → HasIds (update_where p (excluded c) cs)
unfolding update_where
HasIds-update c p [] h = tt
HasIds-update c p (r ∷ cs) h =
    let apart = λ (d : Case). str_eq r.case_id d.case_id ≡ false in
    let later = All-update_where apart apart p (excluded c) (λ d e k. k) (λ d e k. k) cs h.0 in
    elim (Bool-cases (p r)) [
      | inl e ↦ rw e (later, HasIds-update c p cs h.1)
      | inr e ↦ rw e (later, HasIds-update c p cs h.1)
    ]

HasIds-snoc :
    (c : Case) (cs : List Case)
    → any (λ (r : Case). str_eq r.case_id c.case_id) cs ≡ false
    → HasIds cs
    → HasIds (cs ++ c ∷ [])
HasIds-snoc c [] new h = (tt, tt)
HasIds-snoc c (r ∷ cs) new h =
    let apart : str_eq r.case_id c.case_id ≡ false = ground (arith, new) in
    (
      All-append (λ (d : Case). str_eq r.case_id d.case_id ≡ false) cs (c ∷ []) h.0 (apart, tt),
      HasIds-snoc c cs (ground (arith, new, apart)) h.1,
    )

-- After an upsert the case ids are still distinct.
pub upsert_case-HasIds :
    (c : Case) (t t' : CaseTables) → upsert_case c t ≡ some t' → HasIds t.cases → HasIds t'.cases
unfolding upsert_case has_case
upsert_case-HasIds c t t' h ids =
    let hit = λ (r : Case). str_eq r.case_id c.case_id in
    elim (Bool-cases (any hit t.cases)) [
      | inl e ↦
          let same : update_where hit (excluded c) t.cases ≡ t'.cases = ground (arith, h, e) in
          rw (sym same) (HasIds-update c hit t.cases ids)
      | inr e ↦
          let same : t.cases ++ c ∷ [] ≡ t'.cases = ground (arith, h, e) in
          rw (sym same) (HasIds-snoc c t.cases e ids)
    ]
