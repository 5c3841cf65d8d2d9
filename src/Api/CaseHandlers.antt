-- ===== src/Api/CaseHandlers.antt =====
-- `v2_get_case` and `v2_add_case_event` of ProofRail/service/app.py, the second between its two
-- idempotency calls. A name or a decision of a pack that is no text is left out of a summary.
use Prim.Native.String.{◌++◌ as append}
use proofrail_evidence_api.Api.Calls.{◌then_call◌, on_tables}
use proofrail_evidence_api.Prelude.{
  ℕ, String, Bool, true, false, not, Option, none, some, List, [], ◌∷◌, map, str_eq, if◌then◌else◌,
}
use proofrail_evidence_api.Json.{Members, get_member, as_text, as_object}
use proofrail_evidence_api.Evidence.{
  Codec, PackRead, found, file_not_found, evidence_pack_integrity_failed, not_json, get_pack,
}
use proofrail_evidence_api.Cases.{
  Case, CaseEvent, CaseTables, ListedEvent, get_case, list_case_events, insert_case_event,
  upsert_case, truthy,
}
use proofrail_evidence_api.Audit
use proofrail_evidence_api.Audit.{AuditEvent, insert_audit_event}
use proofrail_evidence_api.Api.{Answer, ok, http_error, crash, ApiState, Principal, has_scope}

pub record CaseSummary : Type 0 where
  pub case_id : String
  pub created_at : ℕ
  pub updated_at : ℕ
  pub status : String
  pub assignee : Option String
  pub screening_id : String
  pub evidence_pack_id : String
  pub subject_name : Option String
  pub decision : Option String

pub record ShownEvent : Type 0 where
  pub ts : ℕ
  pub actor : String
  pub event_type : String
  pub note : Option String

pub record CaseDetail : Type 0 where
  pub case : CaseSummary
  pub events : List ShownEvent

-- a member of a dict that is a dict
abbrev pub sub_dict : String → Option Members → Option Members
sub_dict key none = none
sub_dict key (some ms) = as_object (get_member key ms)

abbrev pub text_at : String → Option Members → Option String
text_at key none = none
text_at key (some ms) = truthy (as_text (get_member key ms))

-- the dict of a pack that could be read
abbrev pub read_dict : PackRead → Option Members
read_dict (found pack) = as_object (some pack)
read_dict file_not_found = none
read_dict evidence_pack_integrity_failed = none
read_dict not_json = none

unfoldable pub subject_name_of : PackRead → Option String
subject_name_of r = text_at "name" (sub_dict "subject" (sub_dict "input" (read_dict r)))

unfoldable pub decision_of : PackRead → Option String
decision_of r = text_at "decision" (sub_dict "result" (read_dict r))

abbrev pub summary : PackRead → Case → CaseSummary
summary r c = record {
  case_id = c.case_id;
  created_at = c.created_at;
  updated_at = c.updated_at;
  status = c.status;
  assignee = truthy c.assignee;
  screening_id = c.screening_id;
  evidence_pack_id = c.evidence_pack_id;
  subject_name = subject_name_of r;
  decision = decision_of r;
}

-- `note or None`
abbrev pub shown : ListedEvent → ShownEvent
shown e = record {
  ts = e.ts;
  actor = e.actor;
  event_type = e.event_type;
  note = truthy (some e.note);
}

module _ {B : Type 0} (c : Codec B) where
  abbrev pub show_case : String → Principal → ApiState B → Option Case → Answer CaseDetail
  show_case case_id principal s none = http_error 404 "case_not_found"
  show_case case_id principal s (some case) =
      if not (str_eq case.customer_id principal.customer_id)
      then http_error 404 "case_not_found"
      else ok (record {
        case = summary (get_pack c case.evidence_pack_id s.store) case;
        events = map shown (list_case_events case_id 200 s.tables);
      })

  unfoldable pub v2_get_case : String → Principal → ApiState B → Answer CaseDetail
  v2_get_case case_id principal s =
      if not (has_scope "read:evidence" principal)
      then http_error 403 "missing_scope"
      else show_case case_id principal s (get_case case_id s.tables)

pub record EventRequest : Type 0 where
  pub event_type : String
  pub note : Option String
  pub status : Option String
  pub assignee : Option String

-- `f"{prefix}{value}" + (f" {note}" if note else "")`
abbrev pub prefixed : String → String → Option String → String
prefixed prefix value note =
    append (append prefix value) (elim (truthy note) [ none ↦ "" | some n ↦ append " " n ])

-- `req.event_type == event_type and value`: the value, if it is to be set
abbrev pub change : String → EventRequest → Option String → Option String
change event_type req value = if str_eq req.event_type event_type then truthy value else none

abbrev pub with_change : String → Option String → Option String → Option String
with_change prefix none note = note
with_change prefix (some value) note = some (prefixed prefix value note)

-- the note of the event: the two types of change exclude one another
unfoldable pub event_note : EventRequest → Option String
event_note req =
    with_change "status=" (change "status_update" req req.status)
      (with_change "assignee=" (change "assign" req req.assignee) req.note)

module _ {B : Type 0} (c : Codec B) (now : ℕ) (request_id : Option String) where
  abbrev pub changed_case : Principal → String → Case → String → Option String → Case
  changed_case principal case_id old status assignee = record {
    case_id = case_id;
    created_at = old.created_at;
    updated_at = now;
    customer_id = principal.customer_id;
    screening_id = old.screening_id;
    evidence_pack_id = old.evidence_pack_id;
    status = status;
    assignee = assignee;
  }

  -- the two conditional calls of `upsert_case`
  abbrev pub set_status : Principal → String → Case → Option String → CaseTables → Option CaseTables
  set_status principal case_id old none t = some t
  set_status principal case_id old (some status) t =
      upsert_case (changed_case principal case_id old status none) t

  abbrev pub set_assignee :
      Principal → String → Case → Option String → CaseTables → Option CaseTables
  set_assignee principal case_id old none t = some t
  set_assignee principal case_id old (some assignee) t =
      upsert_case (changed_case principal case_id old old.status (some assignee)) t

  abbrev pub event_audit : Principal → String → EventRequest → AuditEvent
  event_audit principal case_id req = record {
    ts = now;
    actor = "customer";
    action = "case_event";
    request_id = request_id;
    details_json =
        ("customer_id", Audit.text principal.customer_id)
        ∷ ("case_id", Audit.text case_id)
        ∷ ("event_type", Audit.text req.event_type)
        ∷ [];
  }

  abbrev pub new_event : String → EventRequest → CaseEvent
  new_event case_id req = record {
    case_id = case_id;
    ts = now;
    actor = "customer";
    event_type = req.event_type;
    note = event_note req;
  }

  unfoldable pub write_event :
      Principal → String → EventRequest → Case → ApiState B → Bool × ApiState B
  write_event principal case_id req old s =
      (true, s)
      then_call (λ s. on_tables (insert_case_event (new_event case_id req) s.tables) s)
      then_call (λ s.
          on_tables
            (set_status principal case_id old (change "status_update" req req.status) s.tables) s)
      then_call (λ s.
          on_tables (set_assignee principal case_id old (change "assign" req req.assignee) s.tables)
            s)
      then_call (λ s.
          some
            (record s { audit = insert_audit_event (event_audit principal case_id req) s.audit }))

  -- the answer is that of `v2_get_case`, which wants its own scope
  abbrev pub answer_case : Principal → String → Bool × ApiState B → Answer CaseDetail × ApiState B
  answer_case principal case_id (true, s) = (v2_get_case c case_id principal s, s)
  answer_case principal case_id (false, s) = (crash, s)

  abbrev pub add_event :
      Principal → String → EventRequest → ApiState B → Option Case → Answer CaseDetail × ApiState B
  add_event principal case_id req s none = (http_error 404 "case_not_found", s)
  add_event principal case_id req s (some old) =
      if not (str_eq old.customer_id principal.customer_id)
      then (http_error 404 "case_not_found", s)
      else answer_case principal case_id (write_event principal case_id req old s)

  unfoldable pub v2_add_case_event :
      Principal → String → EventRequest → ApiState B → Answer CaseDetail × ApiState B
  v2_add_case_event principal case_id req s =
      if not (has_scope "write:cases" principal)
      then (http_error 403 "missing_scope", s)
      else add_event principal case_id req s (get_case case_id s.tables)
