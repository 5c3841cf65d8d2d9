-- ===== src/Admission.antt =====
-- The request middleware of ProofRail/service/middleware.py, `request_log_and_limits`, up to the call of
-- the handler: size, key, limits. The hash of a key is an argument; a principal keeps the text of its
-- scopes, which `parse_scopes` splits at the commas. A content length that is missing, or is no
-- number, is `none`. The recording of usage after the handler is not modelled.
pub mod Gate
mod Tests
use Prim.Native.String.{◌++◌ as append}
use text.Mathlib.Text.{starts_with}
use proofrail_evidence_api.Prelude.{
  ℕ, ◌*◌, String, Bool, true, false, not, ◌&&◌, ◌||◌, ◌==◌, ltb, Option, none, some, List, [], ◌∷◌,
  str_eq, if◌then◌else◌,
}
use proofrail_evidence_api.OrderedDict.{OrderedDict, get, set}
use proofrail_evidence_api.RateLimit.{RateLimiter, new_limiter, allow}
use proofrail_evidence_api.Keys.{KeyTables, resolve_api_key}

pub record Settings : Type 0 where
  pub max_request_bytes : ℕ
  pub rpm : ℕ
  pub ratelimit_max_buckets : Option ℕ
  pub hash_api_key : String → String

pub record HttpRequest : Type 0 where
  pub path : String
  pub content_length : Option ℕ
  pub api_key : Option String
  pub client_host : Option String
  -- `time.time()` in the limiters
  pub now : ℕ

pub record Principal : Type 0 where
  pub customer_id : String
  pub api_key_id : String
  pub scopes : String

pub record GateState : Type 0 where
  pub limiter : RateLimiter
  pub preauth_limiter : RateLimiter
  pub limiter_by_customer : OrderedDict RateLimiter
  pub keys : KeyTables
  -- `rpm` of a customer's row in `plans`
  pub plans : OrderedDict ℕ

-- a response of the middleware's own, the KeyError of a limiter, or the handler
pub data Admission : Type 0 where
  error_response : ℕ → String → Admission
  internal_error : Admission
  call_next : Option Principal → Admission

-- one call costs 1.0 tokens
abbrev pub one_token : ℕ
one_token = 60000

-- `RateLimiter(capacity=rpm, refill_per_s=rpm / 60.0, ...)`
abbrev pub limiter_of_rpm : ℕ → Option ℕ → RateLimiter
limiter_of_rpm rpm max_buckets = new_limiter (rpm * one_token) rpm max_buckets

abbrev pub host_of : HttpRequest → String
host_of r = elim r.client_host [ none ↦ "unknown" | some host ↦ host ]

abbrev pub is_api : HttpRequest → Bool
is_api r = starts_with r.path "/v1/" || starts_with r.path "/v2/"

abbrev pub is_admin : HttpRequest → Bool
is_admin r = starts_with r.path "/v1/admin/"

-- `int(cl) > max_request_bytes`
abbrev pub too_large : Settings → HttpRequest → Bool
too_large cfg r = elim r.content_length [ none ↦ false | some cl ↦ ltb cfg.max_request_bytes cl ]

-- a request without a valid key: 429 or 401
unfoldable pub refuse_anonymous : String → HttpRequest → GateState → Admission × GateState
refuse_anonymous code r g = elim (allow r.now (append "anon:" (host_of r)) one_token g.limiter) [
  | none ↦ (internal_error, g)
  | some (allowed, limiter) ↦ (
    if allowed then error_response 401 code else error_response 429 "rate_limited",
    record g { limiter = limiter },
  )
]

-- the limiter of a customer whose plan differs from the default, made if it is missing or of another rate
unfoldable pub customer_limiter : Settings → ℕ → String → GateState → RateLimiter
customer_limiter cfg rpm customer_id g = elim (get g.limiter_by_customer customer_id) [
  | none ↦ limiter_of_rpm rpm cfg.ratelimit_max_buckets
  | some l ↦
      if l.capacity == rpm * one_token then l else limiter_of_rpm rpm cfg.ratelimit_max_buckets
]

-- what the limiter says of an authenticated request
abbrev pub limited : Bool → Principal → Admission
limited allowed p = if allowed then call_next (some p) else error_response 429 "rate_limited"

unfoldable pub charge_principal :
    Settings → HttpRequest → Principal → GateState → Admission × GateState
charge_principal cfg r p g =
    let rpm : ℕ = elim (get g.plans p.customer_id) [ none ↦ cfg.rpm | some n ↦ n ] in
    if rpm == cfg.rpm
    then (elim (allow r.now p.api_key_id one_token g.limiter) [
      | none ↦ (internal_error, g)
      | some (allowed, l) ↦ (limited allowed p, record g { limiter = l })
    ])
    else let l = customer_limiter cfg rpm p.customer_id g in
      (elim (allow r.now p.api_key_id one_token l) [
        | none ↦ (
          internal_error,
          record g { limiter_by_customer = set g.limiter_by_customer p.customer_id l },
        )
        | some (allowed, l') ↦ (
          limited allowed p,
          record g { limiter_by_customer = set g.limiter_by_customer p.customer_id l' },
        )
      ])

-- what follows the lookup of the key
unfoldable pub charge_resolved :
    Settings → HttpRequest → Option (String × String × String) → GateState → Admission × GateState
charge_resolved cfg r none g = refuse_anonymous "invalid_api_key" r g
charge_resolved cfg r (some (api_key_id, customer_id, scopes)) g =
    charge_principal cfg r
      (record { customer_id = customer_id; api_key_id = api_key_id; scopes = scopes }) g

-- a request with a key: the limit before the lookup, the lookup, the customer's limit
unfoldable pub authenticate : Settings → HttpRequest → String → GateState → Admission × GateState
authenticate cfg r api_key g =
    elim (allow r.now (append "preauth:" (host_of r)) one_token g.preauth_limiter) [
      | none ↦ (internal_error, g)
      | some (allowed, preauth) ↦
          let g' = record g { preauth_limiter = preauth } in
          if not allowed
          then (error_response 429 "rate_limited", g')
          else charge_resolved cfg r (resolve_api_key (cfg.hash_api_key api_key) g'.keys) g'
    ]

-- the middleware up to `call_next`
unfoldable pub admit : Settings → HttpRequest → GateState → Admission × GateState
admit cfg r g =
    if too_large cfg r
    then (error_response 413 "request_too_large", g)
    else if is_api r && not (is_admin r)
    then (elim r.api_key [
      | none ↦ refuse_anonymous "missing_api_key" r g
      | some key ↦
          if str_eq key "" then refuse_anonymous "missing_api_key" r g else authenticate cfg r key g
    ])
    else (call_next none, g)
