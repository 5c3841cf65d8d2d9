-- ===== src/Api/Decisions.antt =====
-- `v2_set_review_decision` of ProofRail/service/app.py, between the two idempotency calls.
pub mod Review
use Prim.Native.String.{◌++◌ as append}
use proofrail_evidence_api.Prelude.{
  ℕ, String, Bool, true, Option, none, some, [], ◌∷◌, str_eq, if◌then◌else◌,
}
use proofrail_evidence_api.Json.{Json, text}
use proofrail_evidence_api.Cases.{
  Screening, ReviewDecision, get_screening, upsert_screening_review_decision, upsert_case,
  insert_case_event,
}
use proofrail_evidence_api.Audit
use proofrail_evidence_api.Audit.{AuditEvent, insert_audit_event}
use proofrail_evidence_api.Api.{Answer, http_error, ApiState, Principal, has_scope, dict}
use proofrail_evidence_api.Api.Calls.{
  emit, event_row, case_row, on_tables, finish, ◌then_call◌, Context,
}

pub record DecisionRequest : Type 0 where
  pub outcome : String
  pub note : Option String

pub record DecisionResponse : Type 0 where
  pub screening_id : String
  pub decided_at : ℕ
  pub outcome : String
  pub note : Option String

module _ {B : Type 0} (x : Context B) where
  abbrev pub decision_row : String → Principal → Screening → DecisionRequest → ReviewDecision
  decision_row screening_id principal sc req = record {
    screening_id = screening_id;
    decided_at = x.now;
    customer_id = principal.customer_id;
    evidence_pack_id = sc.evidence_pack_id;
    outcome = req.outcome;
    note = req.note;
  }

  abbrev pub decision_audit : String → Principal → Screening → DecisionRequest → AuditEvent
  decision_audit screening_id principal sc req = record {
    ts = x.now;
    actor = "customer";
    action = "screening_review_decision";
    request_id = x.request_id;
    details_json =
        ("customer_id", Audit.text principal.customer_id)
        ∷ ("screening_id", Audit.text screening_id)
        ∷ ("evidence_pack_id", Audit.text sc.evidence_pack_id)
        ∷ ("outcome", Audit.text req.outcome)
        ∷ [];
  }

  abbrev pub decided_fields : String → Screening → DecisionRequest → Json
  decided_fields screening_id sc req = dict (
      ("screening_id", text screening_id)
      ∷ ("evidence_pack_id", text sc.evidence_pack_id)
      ∷ ("outcome", text req.outcome)
      ∷ ("decided_at", text (x.iso x.now))
      ∷ [])

  -- the calls on the database for a screening of the customer
  unfoldable pub record_decision :
      String → Principal → Screening → DecisionRequest → ApiState B → Bool × ApiState B
  record_decision screening_id principal sc req s =
      (true, s)
      then_call (λ s.
          on_tables
            (upsert_screening_review_decision (decision_row screening_id principal sc req) s.tables)
            s)
      then_call (λ s. some (record s {
        audit = insert_audit_event (decision_audit screening_id principal sc req) s.audit;
      }))
      then_call (λ s.
          on_tables
            (upsert_case
              (case_row x principal screening_id sc.evidence_pack_id sc.created_at "closed")
              s.tables)
            s)
      then_call (λ s.
          on_tables
            (insert_case_event
              (event_row x screening_id "customer" "review_decision_recorded"
                (append "outcome=" req.outcome))
              s.tables)
            s)
      then_call emit x principal "screening.review_decision_recorded" screening_id
          (decided_fields screening_id sc req)

  unfoldable pub decide_screening :
      String
      → Principal
      → DecisionRequest
      → Option Screening
      → ApiState B
      → Answer DecisionResponse × ApiState B
  decide_screening screening_id principal req none s = (http_error 404 "screening_not_found", s)
  decide_screening screening_id principal req (some sc) s =
      if str_eq sc.customer_id principal.customer_id
      then finish
          (record {
            screening_id = screening_id;
            decided_at = x.now;
            outcome = req.outcome;
            note = req.note;
          })
          (record_decision screening_id principal sc req s)
      else (http_error 404 "screening_not_found", s)

  unfoldable pub v2_set_review_decision :
      String → Principal → DecisionRequest → ApiState B → Answer DecisionResponse × ApiState B
  v2_set_review_decision screening_id principal req s =
      if has_scope "write:screen" principal
      then decide_screening screening_id principal req (get_screening screening_id s.tables) s
      else (http_error 403 "missing_scope", s)
