-- ===== src/Idempotency/Records.antt =====
-- The table of idempotency keys: a row once stored stays, and decides what its key returns.
use proofrail_evidence_api.Prelude.{
  ℕ, String, Bool, true, false, Option, none, some, List, [], ◌∷◌, ◌++◌, ◌≡◌, ◌≢◌, refl, arith,
  eq_iff, eq_refl, find?, any,
}
use proofrail_evidence_api.Idempotency.{
  IdempotencyRecord, has_id, get_idempotency_record, put_idempotency_record, absent, replayed,
  idempotency_key_conflict, idempotency_maybe_return, idempotency_store, Request, status_or_200,
}

pub find?-append {ℓ} :
    {A : Type ℓ} (p : A → Bool) (xs ys : List A) (x : A)
    → find? p xs ≡ some x
    → find? p (xs ++ ys) ≡ some x
find?-append p [] ys x h = ground (arith, h)
find?-append p (y ∷ xs) ys x h = ground (arith, h, find?-append p xs ys x)

pub find?-snoc {ℓ} :
    {A : Type ℓ} (p : A → Bool) (xs : List A) (x : A)
    → find? p xs ≡ none
    → p x ≡ true
    → find? p (xs ++ x ∷ []) ≡ some x
find?-snoc p [] x h passes = ground (arith, passes)
find?-snoc p (y ∷ xs) x h passes = ground (arith, h, passes, find?-snoc p xs x)

pub any-find? {ℓ} : {A : Type ℓ} (p : A → Bool) (xs : List A) → find? p xs ≡ none → any p xs ≡ false
any-find? p [] h = refl
any-find? p (x ∷ xs) h = ground (arith, h, any-find? p xs)

-- a stored record stays as it is
pub get-put_idempotency_record_kept :
    (r rec : IdempotencyRecord) (t : List IdempotencyRecord) (customer_id scope idem_key : String)
    → get_idempotency_record customer_id scope idem_key t ≡ some rec
    → get_idempotency_record customer_id scope idem_key (put_idempotency_record r t) ≡ some rec
unfolding get_idempotency_record put_idempotency_record
get-put_idempotency_record_kept r rec t customer_id scope idem_key h =
    ground (arith, h, find?-append (has_id customer_id scope idem_key) t (r ∷ []) rec h)

pub get-put_idempotency_record_new :
    (r : IdempotencyRecord) (t : List IdempotencyRecord)
    → get_idempotency_record r.customer_id r.scope r.idem_key t ≡ none
    → get_idempotency_record r.customer_id r.scope r.idem_key (put_idempotency_record r t) ≡ some r
unfolding get_idempotency_record put_idempotency_record
get-put_idempotency_record_new r t h =
    let p = has_id r.customer_id r.scope r.idem_key in
    ground (
      arith,
      any-find? p t h,
      find?-snoc p t r h
          (ground (arith, eq_refl r.customer_id, eq_refl r.scope, eq_refl r.idem_key)),
    )

pub get-idempotency_store :
    (customer_id scope : String) (key : Option String) (sha response : String) (code now : ℕ)
    (t : List IdempotencyRecord) (c sc k : String) (rec : IdempotencyRecord)
    → get_idempotency_record c sc k t ≡ some rec
    → get_idempotency_record c sc k
        (idempotency_store customer_id scope key sha response code now t)
      ≡ some rec
unfolding idempotency_store
get-idempotency_store customer_id scope none sha response code now t c sc k rec h = h
get-idempotency_store customer_id scope (some key) sha response code now t c sc k rec h =
    get-put_idempotency_record_kept
      (record {
        customer_id = customer_id;
        scope = scope;
        idem_key = key;
        request_sha256 = sha;
        status_code = code;
        response_json = response;
        created_at = now;
      })
      rec t c sc k h

-- the row that is stored for a response
abbrev pub record_of : Request → String → String → IdempotencyRecord
record_of r key response = record {
  customer_id = r.customer_id;
  scope = r.scope;
  idem_key = key;
  request_sha256 = r.request_sha;
  status_code = 200;
  response_json = response;
  created_at = r.now;
}

-- nothing is cached for a key only if the table has no row for it
pub absent_is_new :
    (customer_id scope key sha : String) (t : List IdempotencyRecord)
    → idempotency_maybe_return customer_id scope (some key) sha t ≡ absent
    → get_idempotency_record customer_id scope key t ≡ none
unfolding idempotency_maybe_return
absent_is_new customer_id scope key sha t h = ground (arith, h)

pub maybe_return_replays :
    (customer_id scope key sha : String) (t : List IdempotencyRecord) (rec : IdempotencyRecord)
    → get_idempotency_record customer_id scope key t ≡ some rec
    → rec.request_sha256 ≡ sha
    → idempotency_maybe_return customer_id scope (some key) sha t
      ≡ replayed (status_or_200 rec.status_code) rec.response_json
unfolding idempotency_maybe_return
maybe_return_replays customer_id scope key sha t rec h same =
    ground (arith, h, same, eq_iff rec.request_sha256 sha)

pub maybe_return_conflicts :
    (customer_id scope key sha : String) (t : List IdempotencyRecord) (rec : IdempotencyRecord)
    → get_idempotency_record customer_id scope key t ≡ some rec
    → rec.request_sha256 ≢ sha
    → idempotency_maybe_return customer_id scope (some key) sha t ≡ idempotency_key_conflict
unfolding idempotency_maybe_return
maybe_return_conflicts customer_id scope key sha t rec h other =
    ground (arith, h, other, eq_iff rec.request_sha256 sha)
