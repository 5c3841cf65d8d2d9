-- ===== src/Api/Tenants.antt =====
-- Whose case the handlers of a single case show or change: `v2_get_case`, `v2_get_case_bundle` and
-- `v2_add_case_event` of ProofRail/service/app.py.
use proofrail_evidence_api.Api.Screenings.Opened.{has_case-get_case}
use proofrail_evidence_api.Api.Calls.{call_some, next_call}
use proofrail_evidence_api.Audit.{insert_audit_event}
use proofrail_evidence_api.Cases.{insert_case_event, get_case, Case, CaseTables, CaseEvent}
use proofrail_evidence_api.Prelude.{
  [], ◌∷◌, ◌++◌, ap, List, refl, inr, eq_iff, inl, Bool-cases, false, true, str_eq, ◌≢◌, some, Any,
  Option, ◌⊎◌, ◌≡◌, ℕ, String,
}
use proofrail_evidence_api.Evidence.{Codec}
use proofrail_evidence_api.Api.{has_scope, Answer, ApiState, Principal, http_error}
use proofrail_evidence_api.Api.CaseHandlers.{
  event_audit, new_event, write_event, EventRequest, v2_get_case, v2_add_case_event,
}
use proofrail_evidence_api.Api.Bundles.{SigningConfig, v2_get_case_bundle}

module _ {A : Type 0} where
  -- a 404, or a 403 for want of a scope
  abbrev pub IsRefused : Answer A → Type 0
  IsRefused a = (a ≡ http_error 404 "case_not_found") ⊎ (a ≡ http_error 403 "missing_scope")

-- A principal of another customer than the case's gets a 404 (or a 403 for want of a scope) from the
-- handlers that show the case, bundle it, or add an event to it, and the last leaves the state as it was.
pub other_customer-IsRefused :
    {B : Type 0} (c : Codec B) (hmac_sha256 : B → B → String) (iso : ℕ → String)
    (cfg : SigningConfig B) (now : ℕ) (request_id : Option String) (principal : Principal)
    (case_id : String) (req : EventRequest) (s : ApiState B) (case : Case)
    → get_case case_id s.tables ≡ some case
    → case.customer_id ≢ principal.customer_id
    → IsRefused (v2_get_case c case_id principal s)
      × (IsRefused (v2_get_case_bundle c hmac_sha256 iso cfg case_id now principal s.store s.tables)
          × (IsRefused (v2_add_case_event c now request_id principal case_id req s).0
              × ((v2_add_case_event c now request_id principal case_id req s).1 ≡ s)))
unfolding v2_get_case v2_get_case_bundle v2_add_case_event
other_customer-IsRefused c hmac iso cfg now request_id principal case_id req s case found apart =
    let other : str_eq case.customer_id principal.customer_id ≡ false =
      elim (Bool-cases (str_eq case.customer_id principal.customer_id)) [
        | inl e ↦ absurd (apart ((eq_iff case.customer_id principal.customer_id).0 e))
        | inr e ↦ e
      ] in
    (
      elim (Bool-cases (has_scope "read:evidence" principal)) [
        | inl e ↦ rw (e, found, other) (inl refl)
        | inr e ↦ rw e (inr refl)
      ],
      (
        elim (Bool-cases (has_scope "read:evidence" principal)) [
          | inl e ↦ rw (e, found, other) (inl refl)
          | inr e ↦ rw e (inr refl)
        ],
        elim (Bool-cases (has_scope "write:cases" principal)) [
          | inl e ↦ rw (e, found, other) (inl refl, refl)
          | inr e ↦ rw e (inr refl, refl)
        ],
      ),
    )

-- the event is in the table
abbrev pub IsWritten : CaseEvent → CaseTables → Type 0
IsWritten e t = Any (λ r. r ≡ e) t.events

module _ {A : Type 0} (d : A) where
  appended : (xs : List A) → Any (λ r. r ≡ d) (xs ++ d ∷ [])
  appended [] = inl refl
  appended (x ∷ xs) = inr (appended xs)

module _ {B : Type 0} (c : Codec B) (now : ℕ) (request_id : Option String) (principal : Principal)
    (case_id : String) (req : EventRequest) where
  abbrev event : CaseEvent
  event = new_event c now request_id case_id req

  write_event_lem :
      (old : Case) (s : ApiState B)
      → get_case case_id s.tables ≡ some old
      → req.event_type ≡ "comment"
      → (later : ApiState B) × ((write_event c now request_id principal case_id req old s
            ≡ (true, later))
          × IsWritten event later.tables)
  unfolding write_event insert_case_event
  write_event_lem old s found comment =
      let no_status : str_eq req.event_type "status_update" ≡ false =
        ap (λ t. str_eq t "status_update") comment in
      let no_assign : str_eq req.event_type "assign" ≡ false =
        ap (λ t. str_eq t "assign") comment in
      let s1 = record s { tables = record s.tables { events = s.tables.events ++ event ∷ [] } } in
      let s2 = record s1 {
        audit = insert_audit_event (event_audit c now request_id principal case_id req) s.audit;
      } in
      (
        s2,
        (
          next_call _ s1 s2 _
              (next_call _ s1 s1 _
                (next_call _ s1 s1 _
                  (call_some s s1 _ (rw (has_case-get_case case_id s.tables old found) refl))
                  (rw no_status refl))
                (rw no_assign refl))
              refl,
          appended event s.tables.events,
        ),
      )

-- A comment on a case of the principal's customer, by a principal with the scope `write:cases` and
-- without `read:evidence`, is answered with a 403, and yet the event is in the table afterwards.
pub v2_add_case_event-IsWritten :
    {B : Type 0} (c : Codec B) (now : ℕ) (request_id : Option String) (principal : Principal)
    (case_id : String) (req : EventRequest) (s : ApiState B) (case : Case)
    → get_case case_id s.tables ≡ some case
    → case.customer_id ≡ principal.customer_id
    → req.event_type ≡ "comment"
    → has_scope "write:cases" principal ≡ true
    → has_scope "read:evidence" principal ≡ false
    → ((v2_add_case_event c now request_id principal case_id req s).0
        ≡ http_error 403 "missing_scope")
      × IsWritten
          (new_event c now request_id case_id req)
          (v2_add_case_event c now request_id principal case_id req s).1.tables
unfolding v2_add_case_event v2_get_case
v2_add_case_event-IsWritten c now request_id principal case_id req s case found owner comment write
      read =
    let (later, (done, written)) =
      write_event_lem c now request_id principal case_id req case s found comment in
    let own = (eq_iff case.customer_id principal.customer_id).1 owner in
    (rw (write, found, own, done, read) refl, rw (write, found, own, done) written)
