-- ===== src/Chain.antt =====
-- The hash chain over a case's events: `_hash_hex` and `_build_case_event_chain` of
-- ProofRail/service/app.py. The hash and the JSON encoding are arguments (`Codec`).
mod Tests
pub mod Tamper
use proofrail_evidence_api.Prelude.{ℕ, String, List, [], ◌∷◌}
use proofrail_evidence_api.Json.{Json, object, member, no_member, text, number}
use proofrail_evidence_api.Evidence.{Codec}
use proofrail_evidence_api.Cases.{ListedEvent}

pub record ChainedEvent : Type 0 where
  pub ts : ℕ
  pub actor : String
  pub event_type : String
  pub note : String
  pub prev_hash : String
  pub hash : String

-- `"0" * 64`
abbrev pub genesis : String
genesis = "0000000000000000000000000000000000000000000000000000000000000000"

-- `ev_payload`
abbrev pub event_payload : ListedEvent → Json
event_payload e = object (
    member "ts" (number e.ts) (
      member "actor" (text e.actor)
        (member "event_type" (text e.event_type) (member "note" (text e.note) no_member))))

-- `{"prev_hash": prev, "event": ev_payload}`
abbrev pub link_payload : String → ListedEvent → Json
link_payload prev e =
    object (member "prev_hash" (text prev) (member "event" (event_payload e) no_member))

module _ {B : Type 0} (c : Codec B) where
  unfoldable pub hash_hex : Json → String
  hash_hex j = c.sha256_hex (c.canonical_json_bytes j)

  abbrev pub link : String → ListedEvent → ChainedEvent
  link prev e = record {
    ts = e.ts;
    actor = e.actor;
    event_type = e.event_type;
    note = e.note;
    prev_hash = prev;
    hash = hash_hex (link_payload prev e);
  }

  -- the loop of `_build_case_event_chain` from a hash on
  unfoldable pub chain_from : String → List ListedEvent → List ChainedEvent × String
  chain_from prev [] = ([], prev)
  chain_from prev (e ∷ es) =
      let h = hash_hex (link_payload prev e) in
      let (chained, head) = chain_from h es in (link prev e ∷ chained, head)

  unfoldable pub build_case_event_chain : List ListedEvent → List ChainedEvent × String
  build_case_event_chain es = chain_from genesis es
