-- ===== src/Audit.antt =====
-- The table `audit_events` of ProofRail/service/db.py. `details_json` is kept as the object that
-- `json.dumps` wrote.
use proofrail_evidence_api.Prelude.{ℕ, String, Option, List, [], ◌∷◌, ◌++◌}

pub data Detail : Type 0 where
  null : Detail
  text : String → Detail
  number : ℕ → Detail

-- a value that may be None
abbrev pub text_or_null : Option String → Detail
text_or_null Option.none = null
text_or_null (Option.some s) = text s

abbrev pub number_or_null : Option ℕ → Detail
number_or_null Option.none = null
number_or_null (Option.some n) = number n

pub record AuditEvent : Type 0 where
  pub ts : ℕ
  pub actor : String
  pub action : String
  pub request_id : Option String
  pub details_json : List (String × Detail)

-- `insert_audit_event`
unfoldable pub insert_audit_event : AuditEvent → List AuditEvent → List AuditEvent
insert_audit_event e audit = audit ++ e ∷ []
