-- ===== src/Keys/Tests.antt =====
-- A key that is created and revoked, and the witnesses.
use proofrail_evidence_api.Prelude.{String, none, some, List, [], ◌≡◌, refl}
use proofrail_evidence_api.Table.{update_where}
use proofrail_evidence_api.Audit.{AuditEvent, insert_audit_event}
use proofrail_evidence_api.Keys.{
  KeyTables, KeyRequest, ensure_customer, create_api_key, resolve_api_key, revoke_api_key,
  create_key, admin_create_key, admin_revoke_key,
}

program : Unit {0}
unfolding update_where insert_audit_event ensure_customer create_api_key resolve_api_key
    revoke_api_key create_key admin_revoke_key
program = tt

abbrev request : String → KeyRequest
request sha = record {
  customer_id = "c";
  scopes = "read:evidence";
  api_key_id = sha;
  key_sha256 = sha;
  now = 3;
  request_id = none;
}

abbrev empty : KeyTables × List AuditEvent
empty = (record { customers = []; api_keys = [] }, [])

abbrev with_key : KeyTables × List AuditEvent
with_key = (admin_create_key (request "h") empty).1

key_resolves : resolve_api_key "h" with_key.0 ≡ some ("h", "c", "read:evidence")
unfolding program
key_resolves = refl
