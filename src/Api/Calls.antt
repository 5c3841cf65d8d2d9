-- ===== src/Api/Calls.antt =====
-- What the handlers of ProofRail/service/app.py that write have in common: what they read from outside,
-- the sequence of their calls, and the rows that two of them write. One clock reading stands for those
-- of a call; `iso` writes a time, and `text_of` a normalised name.
use proofrail_evidence_api.Prelude.{◌∙◌, ◌≡◌, ap, ℕ, String, Bool, true, false, Option, none, some}
use proofrail_evidence_api.Json.{Json}
use proofrail_evidence_api.Evidence.{Codec}
use proofrail_evidence_api.Cases.{Case, CaseEvent, CaseTables}
use proofrail_evidence_api.Webhooks.Dispatch.{Outbox, Event, emit_webhooks}
use proofrail_evidence_api.Screening.Names.{Codes}
use proofrail_evidence_api.Api.{Answer, ok, crash, ApiState, Principal}

-- what a handler reads from outside
pub record Context (B : Type 0) : Type 0 where
  pub codec : Codec B
  pub iso : ℕ → String
  pub text_of : Codes → String
  -- `name.strip().lower()`
  pub strip_lower : String → String
  pub demo_mode : Bool
  pub payload : String → String → String → Json → String
  pub now : ℕ
  pub request_id : Option String

module _ {B : Type 0} where
  -- a database call on the case tables; `none` is its IntegrityError
  abbrev pub on_tables : Option CaseTables → ApiState B → Option (ApiState B)
  on_tables none s = none
  on_tables (some t) s = some (record s { tables = t })

  -- `_emit_webhooks` has just listed the subscriptions, so that no delivery is without one
  abbrev pub on_outbox : Option Outbox → ApiState B → Option (ApiState B)
  on_outbox none s = none
  on_outbox (some o) s = some (record s { outbox = o })

  abbrev pub called : ApiState B → Option (ApiState B) → Bool × ApiState B
  called s none = (false, s)
  called s (some later) = (true, later)

  -- the next call, unless one raised; the state so far is kept for the exception
  infixl 5 ◌then_call◌
  unfoldable pub ◌then_call◌ :
      Bool × ApiState B → (ApiState B → Option (ApiState B)) → Bool × ApiState B
  (false, s) then_call f = (false, s)
  (true, s) then_call f = called s (f s)

  pub call_some :
      (s later : ApiState B) (f : ApiState B → Option (ApiState B))
      → f s ≡ some later
      → ((true, s) then_call f) ≡ (true, later)
  unfolding ◌then_call◌
  call_some s later f e = ap (called s) e

  pub next_call :
      (p : Bool × ApiState B) (s later : ApiState B) (f : ApiState B → Option (ApiState B))
      → p ≡ (true, s)
      → f s ≡ some later
      → (p then_call f) ≡ (true, later)
  next_call p s later f e h = ap (λ q. q then_call f) e ∙ call_some s later f h

module _ {A B : Type 0} where
  -- the response, unless a call raised
  abbrev pub finish : A → Bool × ApiState B → Answer A × ApiState B
  finish a (true, s) = (ok a, s)
  finish a (false, s) = (crash, s)

module _ {B : Type 0} (x : Context B) where
  abbrev pub case_row : Principal → String → String → ℕ → String → Case
  case_row principal screening_id pack_id created_at status = record {
    case_id = screening_id;
    created_at = created_at;
    updated_at = x.now;
    customer_id = principal.customer_id;
    screening_id = screening_id;
    evidence_pack_id = pack_id;
    status = status;
    assignee = none;
  }

  abbrev pub event_row : String → String → String → String → CaseEvent
  event_row case_id actor event_type note = record {
    case_id = case_id;
    ts = x.now;
    actor = actor;
    event_type = event_type;
    note = some note;
  }

  -- the event, with the payload of `build_event_payload`
  abbrev pub webhook_event : Principal → String → String → Json → Event
  webhook_event principal event_type event_id fields = record {
    customer_id = principal.customer_id;
    event_type = event_type;
    event_id = event_id;
    payload_json = x.payload event_type event_id principal.customer_id fields;
  }

  -- `_emit_webhooks`
  abbrev pub emit : Principal → String → String → Json → ApiState B → Option (ApiState B)
  emit principal event_type event_id fields s =
      on_outbox (emit_webhooks (webhook_event principal event_type event_id fields) x.now s.outbox)
        s
