-- ===== src/Lib.antt =====
-- The evidence service of the repository: what its state machines promise.
--
-- The program is a FastAPI service. Requests pass the limits of ProofRail/service/ratelimit.py, read
-- through the caches of cache.py, state.py and screening.py, and write the tables of db.py; a worker
-- (worker.py) claims jobs from the `jobs` table, refreshes ingested lists and sends webhooks.
--
-- - Prelude, with Prelude/Tests, Prelude/Lists, Prelude/Predicates, Prelude/Texts and Prelude/Decimal:
--   names of the library that the files share, Boolean tests, lists over the native numbers,
--   predicates on all elements of a list, the order of texts, and `str` of a number.
-- - OrderedDict: the part of `collections.OrderedDict` that the caches and the limiter use.
-- - RateLimit: `TokenBucket` and `RateLimiter` of ProofRail/service/ratelimit.py. Time is counted in
--   milliseconds and tokens in 60000ths, so that a limit of n calls a minute refills n units a
--   millisecond and no fractions are left; the clock is an argument of each call. RateLimit/Bucket is
--   one bucket, RateLimit/Limiter the table of buckets, RateLimit/Isolation the calls of many keys.
-- - Caches: `ScreenCache` (state.py) and `NameSetCache` (screening.py) as one LRU cache, and
--   `IngestionCache` (cache.py). Caches/Flight is `get_or_refresh` for one key as a step relation: any
--   number of threads, one lock that is not re-entrant, and a condition variable whose waiters wake
--   at any time, as `wait(timeout=5.0)` allows.
-- - Table: UPDATE, DELETE, COUNT and ORDER BY over a list of rows in the order of insertion.
-- - Jobs: the `jobs` table of ProofRail/service/db.py, a function for each method of `ProofRailDb` on
--   it. A transaction is one function. Timestamps are whole seconds; in the source they are texts of
--   one format, which sort as the seconds do. A payload is its parsed JSON, `none` if it does not
--   parse. Jobs/Rows is the table as a whole, Jobs/Leases the claims, Jobs/Finished
--   the jobs that are done or failed.
-- - Webhooks: the subscriptions and deliveries of db.py, and `deliver_once` and `next_attempt_ts` of
--   webhooks.py. The answer of the HTTP client is an argument. Webhooks/Listing is the two paged
--   listings, Webhooks/Dispatch `_emit_webhooks` and `admin_run_webhook_deliveries` of app.py, with
--   Dispatch/Reach and Dispatch/Emit on the loop over subscriptions, Dispatch/Complete on the whole
--   call, and Dispatch/Sweep on the admin handler. Webhooks/Targets is `validate_webhook_url` of
--   webhooks.py, Targets/Public what an allowed URL is.
-- - Audit: the `audit_events` table.
-- - Json, Evidence: JSON values, and `EvidenceStore` of ProofRail/service/storage.py. The hash, the
--   JSON codec and the parsing of timestamps are the record `Codec`. Evidence/Packs is what `get_pack`
--   returns, Evidence/Collection the deletions of the worker's retention run, Evidence/Files what a
--   deletion leaves of a directory.
-- - Cases: the tables of screenings, review decisions, cases and case events of db.py. Cases/Listing is
--   `list_cases` page by page, on the strict orders of Table/Order and the paging of Table/Paging;
--   texts are ordered as SQLite does, by code points (Prelude/Texts). Cases/Upsert is `upsert_case`.
-- - Screening: Screening/Names is `normalise_name` of ProofRail/sanctions_determinism.py over code points,
--   with Names/Words, Names/Idempotent and Names/Sets; Screening/Fraction and Screening/Similarity are
--   the trigram similarity of `screen_subject_name` in ProofRail/service/screening.py, where a fraction
--   of two sizes stands for the double. Fractions of less than 2 ^ 26 trigrams are ordered as their doubles
--   are; and the percentage is rounded as the double is, whose product with 100 can lie on another side
--   of a half than the exact one only where that is a half itself. Screening/Decide is the decision, with Decide/Verdicts,
--   Decide/Bands, and Decide/Listed for sets that the pipeline made. A set is a list, in the order in
--   which Python runs through it.
-- - Sanctions: the rest of sanctions_determinism.py. Sanctions/Xml has the parsers, over the tree that
--   the XML library returns; Sanctions/Subjects the subjects and the match; Sanctions/Sources the
--   retrieval and `compute_list_version`; Sanctions/Pipeline `run_match_pipeline`. The HTTP session, the
--   hash, the XML library and the decoding of UTF-8 are parameters; Table/Permuted is sorting, and
--   Table/Selected what a query with a limit selects.
-- - Keys: `customers` and `api_keys` of db.py with the admin handlers of app.py. Keys/Revoked is what
--   keeps a revoked key revoked, Keys/Resolve which keys resolve.
-- - Admission: `request_log_and_limits` of ProofRail/service/middleware.py up to the call of the
--   handler, on the limiters and the keys; Admission/Gate is who gets past it.
-- - Chain: `_build_case_event_chain` of ProofRail/service/app.py; Chain/Tamper is what its head says.
-- - Idempotency: the table of idempotency keys, and what app.py does with it around a handler, which is
--   an argument; Idempotency/Records is the table, Idempotency/Replay what a client receives.
-- - Worker: `process_once` and `run` of ProofRail/service/worker.py. What a tick reads from outside
--   (the clocks, the ingested lists, the answers of receivers, the settings) is a record `Env`, and
--   `run` takes the list of the ticks' records. No fuel is needed: a tick works on the claimed jobs,
--   at most 100. Worker/Attempts is what one attempt writes, Worker/Untouched what a tick does to
--   deliveries, Worker/Ops to the queue; Worker/Orphans and Worker/Retries follow a delivery whose
--   attempt failed.
-- - Schedule: `refresh_ingest`, `schedule_refresh` and `stop_schedule` of ProofRail/service/app.py;
--   Schedule/Single counts the pending refreshes of a key.
-- - Api: handlers of app.py on all of the state. Api/Packs has evidence packs and their signatures
--   (signing.py), Api/Bundles the signed bundle of a case and its verification, Api/CaseHandlers a case
--   and its events, Api/Listing `v2_list_cases` with a client that follows its cursor in
--   Listing/Complete, Api/Screenings `v2_create_screening`, Api/Decisions `v2_set_review_decision`, and
--   Api/Calls what these have in common; Api/Tenants is what the handlers of a case keep apart. The idempotency calls around a handler are in Idempotency.
--   HMAC and the format of times are parameters, and one clock reading stands for those of a call.
-- - Retention: `usage_events` of db.py, `_gc_raw_fetches` and `_run_retention_gc` of worker.py;
--   Retention/Kept is what a run leaves alone.
-- - Usage: the usage queue that middleware.py fills, and `usage_flusher_loop` of
--   ProofRail/service/state.py, a turn of the loop at a time; Usage/Order is what ends up in the table,
--   Usage/Bounds how long the queue and the batch become.
--
-- Limits are as in the source (500 jobs, 200 cases, 500 events a query). Loops are
-- recursion on lists; the client's loop over pages has one page more than there are cases.
--
-- Not modelled: the handlers that are not named above, PDF export, the S3 and PostgreSQL backends,
-- ingestion.py, and the tables of db.py other than those named above. A database call of the worker that
-- raises ends a tick early, and is left out.
pub mod Prelude
pub mod OrderedDict
pub mod RateLimit
pub mod Caches
pub mod Table
pub mod Jobs
pub mod Webhooks
pub mod Audit
pub mod Json
pub mod Evidence
pub mod Cases
pub mod Chain
pub mod Idempotency
pub mod Keys
pub mod Admission
pub mod Worker
pub mod Schedule
pub mod Retention
pub mod Usage
pub mod Screening
pub mod Sanctions
pub mod Api
