-- ===== src/Api/Packs.antt =====
-- `get_evidence_pack`, `get_evidence_pack_signature` and `verify_evidence_pack` of
-- ProofRail/service/app.py, with `sign_bytes` and `verify_bytes` of ProofRail/service/signing.py.
-- HMAC is a parameter; `compare_digest` on two ASCII texts is their equality (it
-- raises on others). A pack is its JSON, which the
-- response model passes on.
use proofrail_evidence_api.Prelude.{
  String, Bool, false, not, Option, none, some, str_eq, if◌then◌else◌,
}
use proofrail_evidence_api.Json.{Json, get_member, as_text, as_object}
use proofrail_evidence_api.Evidence.{
  Codec, EvidenceStore, PackRead, found, file_not_found, evidence_pack_integrity_failed, not_json,
  get_pack, has_pack,
}
use proofrail_evidence_api.Api.{Answer, ok, http_error, crash, Principal, has_scope}

-- `pack.get("customer_id") == customer_id`
abbrev pub owned_by : String → Option String → Bool
owned_by customer_id none = false
owned_by customer_id (some owner) = str_eq owner customer_id

-- a pack that is no dict has no `get`
abbrev pub owned_pack : String → Json → Answer Json
owned_pack customer_id pack = elim (as_object (some pack)) [
  | none ↦ crash
  | some ms ↦
      if owned_by customer_id (as_text (get_member "customer_id" ms))
      then ok pack
      else http_error 404 "evidence_pack_not_found"
]

module _ {B : Type 0} (c : Codec B) where
  -- what is made of the result of `get_pack`
  abbrev pub checked : String → PackRead → Answer Json
  checked customer_id (found pack) = owned_pack customer_id pack
  checked customer_id file_not_found = crash
  checked customer_id evidence_pack_integrity_failed =
      http_error 409 "evidence_pack_integrity_failed"
  checked customer_id not_json = crash

  unfoldable pub get_evidence_pack : String → Principal → EvidenceStore B → Answer Json
  get_evidence_pack pack_id principal s =
      if not (has_scope "read:evidence" principal)
      then http_error 403 "missing_scope"
      else if not (has_pack pack_id s)
      then http_error 404 "evidence_pack_not_found"
      else checked principal.customer_id (get_pack c pack_id s)

  module _ (hmac_sha256 : B → B → String) where
    unfoldable pub sign_bytes : B → B → String
    sign_bytes secret payload = hmac_sha256 secret payload

    unfoldable pub verify_bytes : B → B → String → Bool
    verify_bytes secret payload signature_hex = str_eq (hmac_sha256 secret payload) signature_hex

    -- the signature of a pack that was found
    abbrev pub signed : Option B → Answer Json → Answer String
    signed none (ok pack) = http_error 503 "signing_not_configured"
    signed (some secret) (ok pack) = ok (sign_bytes secret (c.canonical_json_bytes pack))
    signed secret (http_error status code) = http_error status code
    signed secret crash = crash

    -- `signing_secret` is none where the setting is empty
    unfoldable pub get_evidence_pack_signature :
        Option B → String → Principal → EvidenceStore B → Answer String
    get_evidence_pack_signature signing_secret pack_id principal s =
        signed signing_secret (get_evidence_pack pack_id principal s)

    abbrev pub valid_for : Option B → Json → String → Answer Bool
    valid_for none pack signature = http_error 503 "signing_not_configured"
    valid_for (some secret) pack signature =
        ok (verify_bytes secret (c.canonical_json_bytes pack) signature)

    unfoldable pub verify_evidence_pack : Option B → Json → String → Principal → Answer Bool
    verify_evidence_pack signing_secret pack signature principal =
        if not (has_scope "read:evidence" principal)
        then http_error 403 "missing_scope"
        else valid_for signing_secret pack signature
