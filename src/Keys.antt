-- ===== src/Keys.antt =====
-- API keys: the tables `customers` and `api_keys` of ProofRail/service/db.py, and the handlers
-- `admin_create_key`, `admin_rotate_key` and `admin_revoke_key` of ProofRail/service/app.py. A generated
-- key and the SHA-256 are arguments. `none` is an exception: a UNIQUE or foreign key violation.
pub mod Revoked
pub mod Resolve
mod Tests
use proofrail_evidence_api.Prelude.{
  ℕ, String, Bool, true, false, not, ◌&&◌, ◌||◌, Option, none, some, List, [], ◌∷◌, ◌++◌, str_eq,
  if◌then◌else◌, find?, any, is_none,
}
use proofrail_evidence_api.Table.{update_where}
use proofrail_evidence_api.Audit.{AuditEvent, Detail, insert_audit_event, text}

pub record ApiKey : Type 0 where
  pub api_key_id : String
  pub customer_id : String
  pub key_sha256 : String
  pub scopes : String
  pub created_at : ℕ
  pub revoked_at : Option ℕ

pub record KeyTables : Type 0 where
  -- `customers`, by id
  pub customers : List (String × ℕ)
  pub api_keys : List ApiKey

abbrev pub is_customer : String → String × ℕ → Bool
is_customer id (customer_id, created_at) = str_eq customer_id id

-- `INSERT OR IGNORE`
unfoldable pub ensure_customer : String → ℕ → KeyTables → KeyTables
ensure_customer customer_id created_at t =
    if any (is_customer customer_id) t.customers
    then t
    else record t { customers = t.customers ++ (customer_id, created_at) ∷ [] }

-- the row collides with one that has its id or its hash
abbrev pub clashes : String → String → ApiKey → Bool
clashes api_key_id key_sha256 k = str_eq k.api_key_id api_key_id || str_eq k.key_sha256 key_sha256

unfoldable pub create_api_key : String → String → String → String → ℕ → KeyTables → Option KeyTables
create_api_key api_key_id customer_id key_sha256 scopes created_at t =
    if any (clashes api_key_id key_sha256) t.api_keys
      || not (any (is_customer customer_id) t.customers)
    then none
    else some (record t {
      api_keys =
          t.api_keys
          ++ record {
            api_key_id = api_key_id;
            customer_id = customer_id;
            key_sha256 = key_sha256;
            scopes = scopes;
            created_at = created_at;
            revoked_at = none;
          }
            ∷ [];
    })

-- `key_sha256 = ? AND revoked_at IS NULL`
abbrev pub resolves : String → ApiKey → Bool
resolves key_sha256 k = str_eq k.key_sha256 key_sha256 && is_none k.revoked_at

unfoldable pub resolve_api_key : String → KeyTables → Option (String × String × String)
resolve_api_key key_sha256 t = elim (find? (resolves key_sha256) t.api_keys) [
  | none ↦ none
  | some k ↦ some (k.api_key_id, k.customer_id, k.scopes)
]

unfoldable pub revoke_api_key : String → ℕ → KeyTables → KeyTables
revoke_api_key api_key_id revoked_at t = record t {
  api_keys =
      update_where (λ (k : ApiKey). str_eq k.api_key_id api_key_id)
        (λ k. record k { revoked_at = some revoked_at }) t.api_keys;
}

-- the audit row that an admin handler writes
abbrev pub admin_event :
    ℕ → String → Option String → List (String × Detail) → List AuditEvent → List AuditEvent
admin_event ts action request_id details = insert_audit_event (record {
  ts = ts;
  actor = "admin";
  action = action;
  request_id = request_id;
  details_json = details;
})

-- What a request to create a key brings along: its fields, the generated key's id (the first 16 digits
-- of its hash) and hash, the clock and the request id.
pub record KeyRequest : Type 0 where
  pub customer_id : String
  -- the scopes joined by commas
  pub scopes : String
  pub api_key_id : String
  pub key_sha256 : String
  pub now : ℕ
  pub request_id : Option String

-- `admin_create_key` and `admin_rotate_key`, which differ in the name of the audited action; the
-- customer stays even where the INSERT of the key raises
unfoldable pub create_key :
    String → KeyRequest → KeyTables × List AuditEvent → Bool × (KeyTables × List AuditEvent)
create_key action r (t, audit) =
    let t' = ensure_customer r.customer_id r.now t in
    elim (create_api_key r.api_key_id r.customer_id r.key_sha256 r.scopes r.now t') [
      | none ↦ (false, (t', audit))
      | some t'' ↦ (
        true,
        (
          t'',
          admin_event r.now action r.request_id
              (("customer_id", text r.customer_id) ∷ ("api_key_id", text r.api_key_id) ∷ []) audit,
        ),
      )
    ]

abbrev pub admin_create_key :
    KeyRequest → KeyTables × List AuditEvent → Bool × (KeyTables × List AuditEvent)
admin_create_key = create_key "key_create"

abbrev pub admin_rotate_key :
    KeyRequest → KeyTables × List AuditEvent → Bool × (KeyTables × List AuditEvent)
admin_rotate_key = create_key "key_rotate"

unfoldable pub admin_revoke_key :
    String → ℕ → Option String → KeyTables × List AuditEvent → KeyTables × List AuditEvent
admin_revoke_key api_key_id now request_id (t, audit) = (
  revoke_api_key api_key_id now t,
  admin_event now "key_revoke" request_id (("api_key_id", text api_key_id) ∷ []) audit,
)
