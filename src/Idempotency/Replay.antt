-- ===== src/Idempotency/Replay.antt =====
-- What a client that repeats a request receives.
use proofrail_evidence_api.Prelude.{
  ℕ, String, Option, none, some, List, [], ◌∷◌, ◌≡◌, ◌≢◌, refl, arith,
}
use proofrail_evidence_api.Idempotency.{
  serve_cached, serve_fresh, IdempotencyRecord, get_idempotency_record, idempotency_key, Cached,
  absent, replayed, idempotency_key_conflict, idempotency_maybe_return, idempotency_store, Request,
  fresh, replay, conflict, serve, status_or_200,
}
use proofrail_evidence_api.Idempotency.Records.{
  get-put_idempotency_record_new, get-idempotency_store, record_of, absent_is_new,
  maybe_return_replays, maybe_return_conflicts,
}

module _ {S : Type 0} (strip : String → String) (handle : Request → S → Option String × S) where
  -- the state after a sequence of requests
  abbrev pub after : List Request → S × List IdempotencyRecord → S × List IdempotencyRecord
  after [] s = s
  after (r ∷ rs) s = after rs (serve strip handle r s).1

  module _ (c sc k : String) (rec : IdempotencyRecord) where
    get-serve_fresh :
        (answer : Option String) (r : Request) (s : S) (t : List IdempotencyRecord)
        → get_idempotency_record c sc k t ≡ some rec
        → get_idempotency_record c sc k (serve_fresh strip handle answer r s t).1.1 ≡ some rec
    unfolding serve_fresh
    get-serve_fresh none r s t h = h
    get-serve_fresh (some response) r s t h =
        get-idempotency_store r.customer_id r.scope (idempotency_key strip r.header) r.request_sha
          response 200 r.now t c sc k rec h

    get-serve_cached :
        (cached : Cached) (r : Request) (s : S) (t : List IdempotencyRecord)
        → get_idempotency_record c sc k t ≡ some rec
        → get_idempotency_record c sc k (serve_cached strip handle cached r s t).1.1 ≡ some rec
    unfolding serve_cached
    get-serve_cached absent r s t h = get-serve_fresh (handle r s).0 r (handle r s).1 t h
    get-serve_cached (replayed code response) r s t h = h
    get-serve_cached idempotency_key_conflict r s t h = h

    get-after :
        (rs : List Request) (s : S × List IdempotencyRecord)
        → get_idempotency_record c sc k s.1 ≡ some rec
        → get_idempotency_record c sc k (after rs s).1 ≡ some rec
    unfolding serve
    get-after [] s h = h
    get-after (r ∷ rs) s h = get-after rs (serve strip handle r s).1 (
        get-serve_cached
          (idempotency_maybe_return r.customer_id r.scope (idempotency_key strip r.header)
            r.request_sha s.1)
          r s.0 s.1 h)

  stored_fresh :
      (answer : Option String) (r : Request) (s : S) (t : List IdempotencyRecord)
      (response key : String)
      → get_idempotency_record r.customer_id r.scope key t ≡ none
      → idempotency_key strip r.header ≡ some key
      → (serve_fresh strip handle answer r s t).0 ≡ fresh response
      → get_idempotency_record r.customer_id r.scope key (serve_fresh strip handle answer r s t).1.1
        ≡ some (record_of r key response)
  unfolding serve_fresh idempotency_store
  stored_fresh none r s t response key new has_key h = ground (arith, h)
  stored_fresh (some answer) r s t response key new has_key h =
      let same : answer ≡ response = ground (arith, h) in
      rw (has_key, same) (get-put_idempotency_record_new (record_of r key response) t new)

  stored_cached :
      (cached : Cached) (r : Request) (s : S) (t : List IdempotencyRecord) (response key : String)
      → (cached ≡ absent → get_idempotency_record r.customer_id r.scope key t ≡ none)
      → idempotency_key strip r.header ≡ some key
      → (serve_cached strip handle cached r s t).0 ≡ fresh response
      → get_idempotency_record r.customer_id r.scope key
          (serve_cached strip handle cached r s t).1.1
        ≡ some (record_of r key response)
  unfolding serve_cached
  stored_cached absent r s t response key new has_key h =
      stored_fresh (handle r s).0 r (handle r s).1 t response key (new refl) has_key h
  stored_cached (replayed code body) r s t response key new has_key h = ground (arith, h)
  stored_cached idempotency_key_conflict r s t response key new has_key h = ground (arith, h)

  -- a fresh response stands in the table, under its key, from then on
  stored_after :
      (r : Request) (s : S × List IdempotencyRecord) (response : String) (rs : List Request)
      (key : String)
      → (serve strip handle r s).0 ≡ fresh response
      → idempotency_key strip r.header ≡ some key
      → get_idempotency_record r.customer_id r.scope key (after rs (serve strip handle r s).1).1
        ≡ some (record_of r key response)
  unfolding serve
  stored_after r s response rs key h has_key =
      let cached =
        idempotency_maybe_return r.customer_id r.scope (idempotency_key strip r.header)
          r.request_sha s.1 in
      get-after r.customer_id r.scope key (record_of r key response) rs (serve strip handle r s).1 (
        stored_cached cached r s.0 s.1 response key
          (λ e. absent_is_new r.customer_id r.scope key r.request_sha s.1 (simp (has_key) at e))
          has_key h)

  serve-replayed :
      (r : Request) (s : S × List IdempotencyRecord) (key : String) (rec : IdempotencyRecord)
      → idempotency_key strip r.header ≡ some key
      → get_idempotency_record r.customer_id r.scope key s.1 ≡ some rec
      → rec.request_sha256 ≡ r.request_sha
      → serve strip handle r s ≡ (replay (status_or_200 rec.status_code) rec.response_json, s)
  unfolding serve serve_cached
  serve-replayed r s key rec has_key there same =
      rw (has_key, maybe_return_replays r.customer_id r.scope key r.request_sha s.1 rec there same)
        refl

  serve-conflict :
      (r : Request) (s : S × List IdempotencyRecord) (key : String) (rec : IdempotencyRecord)
      → idempotency_key strip r.header ≡ some key
      → get_idempotency_record r.customer_id r.scope key s.1 ≡ some rec
      → rec.request_sha256 ≢ r.request_sha
      → serve strip handle r s ≡ (conflict, s)
  unfolding serve serve_cached
  serve-conflict r s key rec has_key there other =
      rw
        (
          has_key,
          maybe_return_conflicts r.customer_id r.scope key r.request_sha s.1 rec there other,
        )
        refl

  -- A retry: once a request with a key has been answered with a fresh response, a request with the
  -- same customer, scope, key and body, after any other requests, is answered with that response and
  -- changes nothing.
  pub retry_replays :
      (r : Request) (s : S × List IdempotencyRecord) (response : String) (rs : List Request)
      (key : String) (now : ℕ)
      → (serve strip handle r s).0 ≡ fresh response
      → idempotency_key strip r.header ≡ some key
      → serve strip handle (record r { now = now }) (after rs (serve strip handle r s).1)
        ≡ (replay 200 response, after rs (serve strip handle r s).1)
  retry_replays r s response rs key now h has_key =
      serve-replayed (record r { now = now }) (after rs (serve strip handle r s).1) key
        (record_of r key response) has_key (stored_after r s response rs key h has_key) refl

  -- After a fresh response, a request with the same customer, scope and key but another body is
  -- refused as a conflict, after any other requests, and changes nothing.
  pub reuse_conflicts :
      (r : Request) (s : S × List IdempotencyRecord) (response : String) (rs : List Request)
      (key : String) (now : ℕ) (sha : String)
      → (serve strip handle r s).0 ≡ fresh response
      → idempotency_key strip r.header ≡ some key
      → r.request_sha ≢ sha
      → serve strip handle
          (record r { now = now; request_sha = sha })
          (after rs (serve strip handle r s).1)
        ≡ (conflict, after rs (serve strip handle r s).1)
  reuse_conflicts r s response rs key now sha h has_key other =
      serve-conflict (record r { now = now; request_sha = sha })
        (after rs (serve strip handle r s).1) key (record_of r key response) has_key
        (stored_after r s response rs key h has_key) other
