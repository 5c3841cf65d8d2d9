-- ===== src/Idempotency.antt =====
-- Idempotency keys: the table `idempotency_keys` of ProofRail/service/db.py, and
-- `_idempotency_key`, `_idempotency_maybe_return` and `_idempotency_store` of ProofRail/service/app.py
-- around a handler. `str.strip` is an argument; a response is its JSON text.
pub mod Records
pub mod Replay
mod Tests
use proofrail_evidence_api.Prelude.{
  suc, ℕ, String, Bool, zero, suc, ◌&&◌, not, Option, none, some, List, [], ◌∷◌, ◌++◌, str_eq,
  if◌then◌else◌, find?, any,
}

pub record IdempotencyRecord : Type 0 where
  pub customer_id : String
  pub scope : String
  pub idem_key : String
  pub request_sha256 : String
  pub status_code : ℕ
  pub response_json : String
  pub created_at : ℕ

-- the primary key
abbrev pub has_id : String → String → String → IdempotencyRecord → Bool
has_id customer_id scope idem_key r =
    str_eq r.customer_id customer_id && (str_eq r.scope scope && str_eq r.idem_key idem_key)

unfoldable pub get_idempotency_record :
    String → String → String → List IdempotencyRecord → Option IdempotencyRecord
get_idempotency_record customer_id scope idem_key t = find? (has_id customer_id scope idem_key) t

-- `INSERT OR IGNORE`
unfoldable pub put_idempotency_record :
    IdempotencyRecord → List IdempotencyRecord → List IdempotencyRecord
put_idempotency_record r t =
    if any (has_id r.customer_id r.scope r.idem_key) t then t else t ++ r ∷ []

-- `_idempotency_key`, from the value of the header
unfoldable pub idempotency_key : (String → String) → Option String → Option String
idempotency_key strip none = none
idempotency_key strip (some v) = let key = strip v in if str_eq key "" then none else some key

-- what `_idempotency_maybe_return` does: nothing, a stored response, or a 409
pub data Cached : Type 0 where
  absent : Cached
  replayed : ℕ → String → Cached
  idempotency_key_conflict : Cached

-- `int(status_code or 200)`
abbrev pub status_or_200 : ℕ → ℕ
status_or_200 zero = 200
status_or_200 (suc n) = suc n

unfoldable pub idempotency_maybe_return :
    String → String → Option String → String → List IdempotencyRecord → Cached
idempotency_maybe_return customer_id scope none request_sha t = absent
idempotency_maybe_return customer_id scope (some key) request_sha t =
    elim (get_idempotency_record customer_id scope key t) [
      | none ↦ absent
      | some rec ↦
          if not (str_eq rec.request_sha256 request_sha)
          then idempotency_key_conflict
          else replayed (status_or_200 rec.status_code) rec.response_json
    ]

unfoldable pub idempotency_store :
    String
    → String
    → Option String
    → String
    → String
    → ℕ
    → ℕ
    → List IdempotencyRecord
    → List IdempotencyRecord
idempotency_store customer_id scope none request_sha response status_code now t = t
idempotency_store customer_id scope (some key) request_sha response status_code now t =
    put_idempotency_record
      (record {
        customer_id = customer_id;
        scope = scope;
        idem_key = key;
        request_sha256 = request_sha;
        status_code = status_code;
        response_json = response;
        created_at = now;
      })
      t

-- a request to a handler that uses the key
pub record Request : Type 0 where
  pub customer_id : String
  pub scope : String
  pub header : Option String
  pub request_sha : String
  pub now : ℕ

-- what the client receives
pub data Reply : Type 0 where
  fresh : String → Reply
  replay : ℕ → String → Reply
  conflict : Reply
  refused : Reply

-- A handler with the two calls around it: `handle` changes the state and answers with a response, or
-- raises before it is stored.
module _ {S : Type 0} (strip : String → String) (handle : Request → S → Option String × S) where
  -- the handler's response is stored, an exception is not
  unfoldable pub serve_fresh :
      Option String → Request → S → List IdempotencyRecord → Reply × (S × List IdempotencyRecord)
  serve_fresh none r s t = (refused, (s, t))
  serve_fresh (some response) r s t = (
    fresh response,
    (
      s,
      idempotency_store r.customer_id r.scope (idempotency_key strip r.header) r.request_sha
          response 200 r.now t,
    ),
  )

  unfoldable pub serve_cached :
      Cached → Request → S → List IdempotencyRecord → Reply × (S × List IdempotencyRecord)
  serve_cached absent r s t = let (answer, s') = handle r s in serve_fresh answer r s' t
  serve_cached (replayed code response) r s t = (replay code response, (s, t))
  serve_cached idempotency_key_conflict r s t = (conflict, (s, t))

  unfoldable pub serve : Request → S × List IdempotencyRecord → Reply × (S × List IdempotencyRecord)
  serve r (s, t) =
      serve_cached
        (idempotency_maybe_return r.customer_id r.scope (idempotency_key strip r.header)
          r.request_sha t)
        r s t
