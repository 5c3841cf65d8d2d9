-- ===== src/Api.antt =====
-- The handlers of ProofRail/service/app.py over the tables, the store and the outbox: what they answer
-- and what they leave. A handler returns its answer and the state, for an exception too: every
-- database call commits by itself.
pub mod Packs
pub mod Bundles
pub mod CaseHandlers
pub mod Listing
pub mod Calls
pub mod Screenings
pub mod Decisions
pub mod Tenants
mod Tests
use proofrail_evidence_api.Prelude.{ℕ, String, Bool, Option, none, some, List, [], ◌∷◌, any, str_eq}
use proofrail_evidence_api.Json.{
  Json, Elements, Members, no_element, element, no_member, member, object, array, text, null,
}
use proofrail_evidence_api.Evidence.{EvidenceStore}
use proofrail_evidence_api.Cases.{CaseTables}
use proofrail_evidence_api.Audit.{AuditEvent}
use proofrail_evidence_api.Caches.{LruCache}
use proofrail_evidence_api.Webhooks.Dispatch.{Outbox}

-- a response, `raise_http_error` with its status and code, or another exception (a 500)
pub data Answer (A : Type 0) : Type 0 where
  ok : A → Answer A
  http_error : ℕ → String → Answer A
  crash : Answer A

pub record ApiState (B : Type 0) : Type 0 where
  pub store : EvidenceStore B
  pub tables : CaseTables
  pub outbox : Outbox
  pub audit : List AuditEvent
  pub screen_cache : LruCache String

pub record Principal : Type 0 where
  pub customer_id : String
  pub scopes : List String

-- `scope in principal.scopes`
abbrev pub has_scope : String → Principal → Bool
has_scope scope principal = any (str_eq scope) principal.scopes

-- a dict and a list, in the order of their members
abbrev pub members : List (String × Json) → Members
members [] = no_member
members ((k, v) ∷ ms) = member k v (members ms)

abbrev pub dict : List (String × Json) → Json
dict ms = object (members ms)

abbrev pub elements : List Json → Elements
elements [] = no_element
elements (e ∷ es) = element e (elements es)

abbrev pub text_or_null : Option String → Json
text_or_null none = null
text_or_null (some s) = text s
