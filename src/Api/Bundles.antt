-- ===== src/Api/Bundles.antt =====
-- `v2_get_case_bundle` and `v2_verify_case_bundle` of ProofRail/service/app.py. The signing keys are an
-- association list, as `load_config` reads them; `iso` writes a time.
pub mod RoundTrip
use proofrail_evidence_api.Prelude.{
  ℕ, String, Bool, not, Option, none, some, List, [], ◌∷◌, map, str_eq, if◌then◌else◌,
}
use proofrail_evidence_api.Json.{array, Json, text}
use proofrail_evidence_api.Evidence.{Codec, EvidenceStore}
use proofrail_evidence_api.Cases.{Case, CaseTables, get_case, list_case_events, or_empty}
use proofrail_evidence_api.Chain.{ChainedEvent, build_case_event_chain}
use proofrail_evidence_api.Api.{Answer, ok, http_error, crash, Principal, has_scope, dict, elements}
use proofrail_evidence_api.Api.Packs.{get_evidence_pack, sign_bytes, verify_bytes}

pub record SigningConfig (B : Type 0) : Type 0 where
  pub signing_keys : List (String × B)
  pub signing_key_current : Option String

-- `signing_keys.get(key_id)`
module _ {B : Type 0} where
  unfoldable pub key_of : String → List (String × B) → Option B
  key_of key_id [] = none
  key_of key_id ((k, secret) ∷ keys) =
      let later = key_of key_id keys in if str_eq k key_id then some secret else later

pub record Bundle : Type 0 where
  pub case_id : String
  pub customer_id : String
  pub created_at : String
  pub evidence_pack : Json
  pub case : Case
  pub events : List ChainedEvent
  pub chain_head : String

module _ (iso : ℕ → String) where
  -- the rows as `get_case` returns them: a missing assignee is the empty text
  abbrev pub dump_case : Case → Json
  dump_case c = dict (
      ("case_id", text c.case_id)
      ∷ ("created_at", text (iso c.created_at))
      ∷ ("updated_at", text (iso c.updated_at))
      ∷ ("customer_id", text c.customer_id)
      ∷ ("screening_id", text c.screening_id)
      ∷ ("evidence_pack_id", text c.evidence_pack_id)
      ∷ ("status", text c.status)
      ∷ ("assignee", text (or_empty c.assignee))
      ∷ [])

  abbrev pub dump_event : ChainedEvent → Json
  dump_event e = dict (
      ("ts", text (iso e.ts))
      ∷ ("actor", text e.actor)
      ∷ ("event_type", text e.event_type)
      ∷ ("note", text e.note)
      ∷ ("prev_hash", text e.prev_hash)
      ∷ ("hash", text e.hash)
      ∷ [])

  -- `bundle.model_dump()`
  abbrev pub dump_bundle : Bundle → Json
  dump_bundle b = dict (
      ("schema_version", text "1")
      ∷ ("case_id", text b.case_id)
      ∷ ("customer_id", text b.customer_id)
      ∷ ("created_at", text b.created_at)
      ∷ ("evidence_pack", b.evidence_pack)
      ∷ ("case", dump_case b.case)
      ∷ ("events", array (elements (map dump_event b.events)))
      ∷ ("chain_head", text b.chain_head)
      ∷ [])

-- the response: the bundle with the key's id and the signature
pub record SignedBundle : Type 0 where
  pub bundle : Bundle
  pub key_id : String
  pub signature : String

module _ {B : Type 0} (c : Codec B) (hmac_sha256 : B → B → String) (iso : ℕ → String)
    (cfg : SigningConfig B) where
  unfoldable pub sign_with : String → Option B → Bundle → Answer SignedBundle
  sign_with key_id none b = http_error 503 "signing_not_configured"
  sign_with key_id (some secret) b = ok (record {
    bundle = b;
    key_id = key_id;
    signature = sign_bytes c hmac_sha256 secret (c.canonical_json_bytes (dump_bundle iso b));
  })

  -- `not key_id or key_id not in signing_keys`
  unfoldable pub sign_bundle : Option String → Bundle → Answer SignedBundle
  sign_bundle none b = http_error 503 "signing_not_configured"
  sign_bundle (some key_id) b =
      if str_eq key_id ""
      then http_error 503 "signing_not_configured"
      else sign_with key_id (key_of key_id cfg.signing_keys) b

  -- the bundle of a case and its pack
  abbrev pub assemble : String → String → ℕ → Case → CaseTables → Json → Bundle
  assemble case_id customer_id now case tables pack =
      let (chained, head) = build_case_event_chain c (list_case_events case_id 500 tables) in
      record {
        case_id = case_id;
        customer_id = customer_id;
        created_at = iso now;
        evidence_pack = pack;
        case = case;
        events = chained;
        chain_head = head;
      }

  unfoldable pub bundle_of :
      String → String → ℕ → Case → CaseTables → Answer Json → Answer SignedBundle
  bundle_of case_id customer_id now case tables (ok pack) =
      sign_bundle cfg.signing_key_current (assemble case_id customer_id now case tables pack)
  bundle_of case_id customer_id now case tables (http_error status code) = http_error status code
  bundle_of case_id customer_id now case tables crash = crash

  abbrev pub bundle_case :
      String → ℕ → Principal → EvidenceStore B → CaseTables → Option Case → Answer SignedBundle
  bundle_case case_id now principal store tables none = http_error 404 "case_not_found"
  bundle_case case_id now principal store tables (some case) =
      if not (str_eq case.customer_id principal.customer_id)
      then http_error 404 "case_not_found"
      else bundle_of case_id principal.customer_id now case tables
          (get_evidence_pack c case.evidence_pack_id principal store)

  unfoldable pub v2_get_case_bundle :
      String → ℕ → Principal → EvidenceStore B → CaseTables → Answer SignedBundle
  v2_get_case_bundle case_id now principal store tables =
      if not (has_scope "read:evidence" principal)
      then http_error 403 "missing_scope"
      else bundle_case case_id now principal store tables (get_case case_id tables)

  abbrev pub verify_with : Option B → Json → String → Answer Bool
  verify_with none bundle signature = http_error 404 "signing_key_not_found"
  verify_with (some secret) bundle signature =
      ok (verify_bytes c hmac_sha256 secret (c.canonical_json_bytes bundle) signature)

  unfoldable pub v2_verify_case_bundle : Json → String → String → Principal → Answer Bool
  v2_verify_case_bundle bundle key_id signature principal =
      if not (has_scope "read:evidence" principal)
      then http_error 403 "missing_scope"
      else verify_with (key_of key_id cfg.signing_keys) bundle signature
