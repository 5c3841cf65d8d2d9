-- ===== src/Admission/Tests.antt =====
-- Requests with and without a key, and the witnesses.
use proofrail_evidence_api.Prelude.{String, Option, none, some, [], ◌∷◌, ◌≡◌, refl}
use proofrail_evidence_api.OrderedDict
use proofrail_evidence_api.RateLimit.{
  refill, bucket_allow, new_limiter, fresh_bucket, evict, checkout, allow,
}
use proofrail_evidence_api.Table.{update_where}
use proofrail_evidence_api.Audit.{insert_audit_event}
use proofrail_evidence_api.Keys.{
  KeyTables, ensure_customer, create_api_key, resolve_api_key, revoke_api_key, create_key,
  admin_revoke_key,
}
use proofrail_evidence_api.Keys.Revoked.{run}
use proofrail_evidence_api.Admission.{
  Settings, HttpRequest, Principal, GateState, error_response, call_next, limiter_of_rpm,
  refuse_anonymous, customer_limiter, charge_principal, charge_resolved, authenticate, admit,
}
use proofrail_evidence_api.Admission.Gate.{Authenticated, admit_sound, revoked_not_admitted}

program : Unit {0}
unfolding OrderedDict.get OrderedDict.remove OrderedDict.set OrderedDict.set_last
    OrderedDict.make_room refill bucket_allow new_limiter fresh_bucket evict checkout allow
    update_where insert_audit_event ensure_customer create_api_key resolve_api_key revoke_api_key
    create_key admin_revoke_key refuse_anonymous customer_limiter charge_principal charge_resolved
    authenticate admit
program = tt

abbrev settings : Settings
settings = record {
  max_request_bytes = 1000;
  rpm = 60;
  ratelimit_max_buckets = some 10;
  hash_api_key = λ key. key;
}

abbrev keys : KeyTables
keys = record {
  customers = ("c", 0) ∷ [];
  api_keys =
      record {
        api_key_id = "k";
        customer_id = "c";
        key_sha256 = "secret";
        scopes = "read:evidence";
        created_at = 0;
        revoked_at = none;
      }
      ∷ [];
}

abbrev gate : GateState
gate = record {
  limiter = limiter_of_rpm 60 (some 10);
  preauth_limiter = limiter_of_rpm 60 (some 10);
  limiter_by_customer = [];
  keys = keys;
  plans = ("c", 1) ∷ [];
}

abbrev asks : Option String → HttpRequest
asks key = record {
  path = "/v2/cases";
  content_length = none;
  api_key = key;
  client_host = none;
  now = 0;
}

abbrev principal : Principal
principal = record { customer_id = "c"; api_key_id = "k"; scopes = "read:evidence" }

passes : (admit settings (asks (some "secret")) gate).0 ≡ call_next (some principal)
unfolding program
passes = refl

-- the customer's plan allows one call a minute
second_is_limited :
    (admit settings (asks (some "secret")) (admit settings (asks (some "secret")) gate).1).0
    ≡ error_response 429 "rate_limited"
unfolding program
second_is_limited = refl

no_key : (admit settings (asks none) gate).0 ≡ error_response 401 "missing_api_key"
unfolding program
no_key = refl

admit_sound_example : Authenticated settings (asks (some "secret")) keys (some principal)
admit_sound_example =
    admit_sound settings (asks (some "secret")) gate (some principal) refl refl passes

revoked_not_admitted_example : ¬ (
    (admit settings
      (asks (some "secret"))
      (record gate { keys = (run [] (admin_revoke_key "k" 5 none (keys, []))).0 })).0
    ≡ call_next (some principal))
unfolding resolve_api_key
revoked_not_admitted_example =
    revoked_not_admitted settings (asks (some "secret")) gate (some principal) "secret" []
      (keys, []) "k" "c" "read:evidence" 5 none refl refl refl (tt, tt) refl
