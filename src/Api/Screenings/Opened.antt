-- ===== src/Api/Screenings/Opened.antt =====
-- What `v2_create_screening` leaves in the case tables.
use proofrail_evidence_api.Evidence.{has_pack}
use proofrail_evidence_api.Json.{text}
use proofrail_evidence_api.Screening.Decide.{screen_subject_name}
use proofrail_evidence_api.Screening.Names.{codes}
use mathlib.Core.Path.{subst}
use proofrail_evidence_api.Table.{delete_where}
use proofrail_evidence_api.Prelude.{
  sym, inr, ◌∙◌, inl, Option-cases, ap, arith, str_eq, [], refl, find?, any, ◌∷◌, ◌++◌, none, List,
  some, eq_refl, true, Option, ◌≡◌, String,
}
use Prim.Native.String.{◌++◌ as append}
use proofrail_evidence_api.Caches.{get}
use proofrail_evidence_api.Cases.{
  upsert_case, Screening, Case, CaseEvent, CaseTables, get_case, has_case, has_screening,
  insert_screening, insert_case_event,
}
use proofrail_evidence_api.Cases.Upsert.{get-upsert_case, upserted}
use proofrail_evidence_api.Api.{dict, ApiState, Principal}
use proofrail_evidence_api.Api.Calls.{Context}
use proofrail_evidence_api.Api.Screenings.{
  override, dump_subject, CreateResponse, CreateRequest, Artifact,
}

pub has_screening-insert_screening :
    (sc : Screening) (t : CaseTables) → has_screening sc.screening_id (insert_screening sc t) ≡ true
unfolding has_screening insert_screening
has_screening-insert_screening sc t = in_last (delete_where _ t.screenings)
  where
    in_last :
        (xs : List Screening)
        → any (λ (s : Screening). str_eq s.screening_id sc.screening_id) (xs ++ sc ∷ []) ≡ true
    in_last [] = rw (eq_refl sc.screening_id) refl
    in_last (x ∷ xs) = ground (arith, in_last xs)

pub has_case-get_case :
    (id : String) (t : CaseTables) (c : Case) → get_case id t ≡ some c → has_case id t ≡ true
unfolding has_case get_case
has_case-get_case id t c h = in_rows t.cases h
  where
    in_rows :
        (xs : List Case)
        → find? (λ (c : Case). str_eq c.case_id id) xs ≡ some c
        → any (λ (c : Case). str_eq c.case_id id) xs ≡ true
    in_rows [] h = ground (arith, h)
    in_rows (x ∷ xs) h = ground (arith, in_rows xs, h)

-- an event of a case that is there is written, and changes no case
pub insert_case_event_lem :
    (e : CaseEvent) (t : CaseTables) (c : Case)
    → get_case e.case_id t ≡ some c
    → (later : CaseTables) × ((insert_case_event e t ≡ some later)
        × (get_case e.case_id later ≡ some c))
unfolding insert_case_event get_case
insert_case_event_lem e t c h =
    (record t { events = t.events ++ e ∷ [] }, (rw (has_case-get_case e.case_id t c h) refl, h))

-- a case of the tables after its upsert has the new status and pack
unfoldable pub IsUpserted : Case → Option Case → Type 0
IsUpserted new none = ⊥
IsUpserted new (some c) =
    (c.status ≡ new.status)
    × (c.evidence_pack_id ≡ new.evidence_pack_id)
    × (c.updated_at ≡ new.updated_at)

upserted-IsUpserted : (c : Case) (r : Option Case) → IsUpserted c (upserted c c.case_id r)
unfolding IsUpserted
upserted-IsUpserted c none = rw (eq_refl c.case_id) (refl, refl, refl)
upserted-IsUpserted c (some r) = rw (eq_refl c.case_id) (refl, refl, refl)

-- the fields that an upsert sets
abbrev pub IsStored : Case → Case → Type 0
IsStored new c =
    (c.status ≡ new.status)
    × (c.evidence_pack_id ≡ new.evidence_pack_id)
    × (c.updated_at ≡ new.updated_at)

-- a case that is stored, and is as the upsert set it
abbrev pub Holds : Case → CaseTables → Type 0
Holds new t = (c : Case) × ((get_case new.case_id t ≡ some c) × IsStored new c)

from_upserted :
    (new : Case) (t : CaseTables) → IsUpserted new (get_case new.case_id t) → Holds new t
unfolding IsUpserted
from_upserted new t h = elim (Option-cases (get_case new.case_id t)) [
  | inl e ↦ absurd (subst (IsUpserted new) e h)
  | inr (c, e) ↦ (c, (e, subst (IsUpserted new) e h))
]

pub upsert_case-Holds :
    (new : Case) (t : CaseTables)
    → has_screening new.screening_id t ≡ true
    → (later : CaseTables) × ((upsert_case new t ≡ some later) × Holds new later)
upsert_case-Holds new t h = elim (get-upsert_case new t) [
  | inl (e, missing) ↦ absurd (ground (arith, h, missing))
  | inr (later, e, get) ↦ (
    later,
    (
      e,
      from_upserted new later (
          subst (IsUpserted new) (sym (get new.case_id))
            (upserted-IsUpserted new (get_case new.case_id t))),
    ),
  )
]

-- the case stays when one of its events is written
pub insert_case_event-Holds :
    (new : Case) (e : CaseEvent) (t : CaseTables)
    → e.case_id ≡ new.case_id
    → Holds new t
    → (later : CaseTables) × ((insert_case_event e t ≡ some later) × Holds new later)
insert_case_event-Holds new e t same (c, (got, set)) =
    let (later, (done, kept)) = insert_case_event_lem e t c (ap (λ id. get_case id t) same ∙ got) in
    (later, (done, (c, (ap (λ id. get_case id later) (sym same) ∙ kept, set))))

-- the key as the code computes it: the hash of the list version and of the customer with the subject
abbrev pub key_spec : {B : Type 0} → Context B → Artifact → Principal → CreateRequest → String
key_spec x artifact principal req = x.codec.sha256_hex (
    x.codec.canonical_json_bytes (
      dict (
        ("list_version", text artifact.list_version)
        ∷ (
          "subject",
          dict (
              ("customer_id", text principal.customer_id)
              ∷ ("subject", dump_subject req.subject)
              ∷ []),
        )
        ∷ [])))

-- the response is that of the request, and its pack is stored
abbrev pub Answers :
    {B : Type 0}
    → Context B
    → Artifact
    → Principal
    → CreateRequest
    → CreateResponse
    → ApiState B
    → Type 0
Answers x artifact principal req resp later =
    (resp.screening_id ≡ key_spec x artifact principal req)
    × ((resp.result
          ≡ override x req.subject.name (
              screen_subject_name (codes req.subject.name) artifact.name_sets req.subject.country
                req.subject.dob))
        × ((resp.list_version ≡ artifact.list_version)
            × (has_pack resp.evidence_pack_id later.store ≡ true)))
