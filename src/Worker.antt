-- ===== src/Worker.antt =====
-- `process_once` of ProofRail/service/worker.py: one tick of the background worker. A tick reads the
-- clock, the sources and the network through `Env`; a failing database call, which ends the tick, is
-- not modelled; the retention run of `do_gc` is Retention.
pub mod Attempts
pub mod Untouched
pub mod Ops
pub mod Orphans
pub mod Retries
mod Tests
use proofrail_evidence_api.Prelude.{
  ℕ, ◌+◌, String, Bool, true, false, not, ◌&&◌, Option, none, some, List, [], ◌∷◌, ltb, leb, str_eq,
  if◌then◌else◌,
}
use proofrail_evidence_api.Jobs.{
  Job, Jobs, Payload, enqueue_job, claim_due_jobs, delete_pending_jobs, release_expired_job_leases,
  mark_job_success, mark_job_retry, mark_job_failed,
}
use proofrail_evidence_api.Webhooks.{
  Subscription, Delivery, Deliveries, DeliveryResult, is_open, get_webhook_subscription,
  get_webhook_delivery, mark_webhook_delivery_success, mark_webhook_delivery_retry,
  mark_webhook_delivery_failed, next_attempt_ts,
}
use proofrail_evidence_api.Audit.{
  AuditEvent, insert_audit_event, text, text_or_null, number_or_null,
}
use proofrail_evidence_api.Caches.{IngestionCache, put}

-- what `ingest_func` does: an artifact, or an exception with its text
pub data Ingested (A : Type 0) : Type 0 where
  artifact : A → Ingested A
  failure : String → Ingested A

pub record Env (A : Type 0) : Type 0 where
  -- `utc_now_iso()` at the top of the tick, and `datetime.now` where the lease is computed
  pub now : ℕ
  pub lease_clock : ℕ
  -- `datetime.now` while the job with this id is worked on
  pub wall : ℕ → ℕ
  pub ingest : String → Option ℕ → Ingested A
  pub list_version : A → String
  pub deliver : Subscription → Delivery → DeliveryResult
  pub webhook_max_attempts : ℕ
  pub webhook_retry_base_ms : ℕ

pub record WorkerState (A : Type 0) : Type 0 where
  pub jobs : Jobs
  pub deliveries : Deliveries
  pub subs : List Subscription
  pub audit : List AuditEvent
  pub ingest_cache : IngestionCache A

-- Python's `a or b` on a text that may be missing
abbrev pub or_else : Option String → String → String
or_else none d = d
or_else (some s) d = if str_eq s "" then d else s

-- `payload.get("key") or j.get("job_key") or "__global__"`
unfoldable pub refresh_key : Payload → Job → String
refresh_key p j = or_else p.key (or_else j.job_key "__global__")

module _ {A : Type 0} (env : Env A) where
  abbrev pub with_jobs : (Jobs → Jobs) → WorkerState A → WorkerState A
  with_jobs f w = record w { jobs = f w.jobs }

  -- the re-enqueue of a scheduled refresh
  unfoldable pub reschedule : String → ℕ → ℕ → Jobs → Jobs
  reschedule key interval_s wall jobs =
      (enqueue_job "ingest_refresh" (some key)
        (some (record {
          key = some key;
          retrieval_ts = none;
          interval_s = some interval_s;
          delivery_id = none;
        }))
        (wall + interval_s) env.now (delete_pending_jobs "ingest_refresh" key jobs).1).1

  abbrev pub reschedule_if : Option ℕ → String → ℕ → Jobs → Jobs
  reschedule_if none key wall jobs = jobs
  reschedule_if (some interval_s) key wall jobs = reschedule key interval_s wall jobs

  -- the `ingest_refresh` branch
  unfoldable pub process_refresh : Job → Payload → WorkerState A → WorkerState A
  process_refresh j p w =
      let key = refresh_key p j in
      let wall = env.wall j.job_id in
      elim (env.ingest key p.retrieval_ts) [
        | failure error ↦ with_jobs (mark_job_retry j.job_id env.now (wall + 60) (some error)) w
        | artifact a ↦ record w {
          jobs = mark_job_success j.job_id env.now (reschedule_if p.interval_s key wall w.jobs);
          audit =
              insert_audit_event
                (record {
                  ts = wall;
                  actor = "worker";
                  action = "ingest_refresh";
                  request_id = none;
                  details_json =
                      ("key", text key)
                      ∷ ("retrieval_ts", number_or_null p.retrieval_ts)
                      ∷ ("list_version", text (env.list_version a))
                      ∷ [];
                })
                w.audit;
          ingest_cache = put wall key a w.ingest_cache;
        }
      ]

  -- what follows `deliver_once`
  unfoldable pub record_result : Delivery → DeliveryResult → Deliveries → Deliveries
  record_result d res t =
      if res.ok
      then mark_webhook_delivery_success d.delivery_id env.now
          (elim res.status_code [ none ↦ 0 | some code ↦ code ]) t
      else if leb env.webhook_max_attempts (d.attempt_count + 1)
      then mark_webhook_delivery_failed d.delivery_id env.now res.error t
      else mark_webhook_delivery_retry d.delivery_id env.now
          (next_attempt_ts env.now d.attempt_count env.webhook_retry_base_ms) res.status_code
          res.error t

  -- a delivery that is open and due
  unfoldable pub attempt_delivery : Delivery → WorkerState A → Deliveries
  attempt_delivery d w = elim (get_webhook_subscription d.subscription_id w.subs) [
    | none ↦
        mark_webhook_delivery_failed d.delivery_id env.now (some "subscription_missing")
          w.deliveries
    | some sub ↦
        if sub.active
        then record_result d (env.deliver sub d) w.deliveries
        else mark_webhook_delivery_failed d.delivery_id env.now (some "subscription_missing")
            w.deliveries
  ]

  -- the `webhook_delivery` branch, once the payload has given a delivery id
  unfoldable pub process_delivery : Job → ℕ → WorkerState A → WorkerState A
  process_delivery j id w = elim (get_webhook_delivery id w.deliveries) [
    | none ↦ with_jobs (mark_job_success j.job_id env.now) w
    | some d ↦
        if not (is_open d.status)
        then with_jobs (mark_job_success j.job_id env.now) w
        else if ltb env.now d.next_attempt_at
        then with_jobs (mark_job_retry j.job_id env.now d.next_attempt_at none) w
        else record w {
          deliveries = attempt_delivery d w;
          jobs = mark_job_success j.job_id env.now w.jobs;
        }
  ]

  -- the dispatch on a payload that parses
  unfoldable pub process_payload : Job → Payload → WorkerState A → WorkerState A
  process_payload j p w =
      if str_eq j.job_type "ingest_refresh"
      then process_refresh j p w
      else if str_eq j.job_type "webhook_delivery"
      then (elim p.delivery_id [
        | none ↦ with_jobs (mark_job_failed j.job_id env.now (some "bad_payload")) w
        | some id ↦ process_delivery j id w
      ])
      else with_jobs (mark_job_failed j.job_id env.now (some "unknown_job_type")) w

  -- the body of the loop over the claimed jobs
  unfoldable pub process_job : Job → WorkerState A → WorkerState A
  process_job j w = elim j.payload_json [
    | none ↦ with_jobs (mark_job_failed j.job_id env.now (some "bad_payload")) w
    | some p ↦ process_payload j p w
  ]

  unfoldable pub process_all : List Job → WorkerState A → WorkerState A
  process_all [] w = w
  process_all (j ∷ js) w = process_all js (process_job j w)

  -- `process_once`: stale leases are released, up to 100 due jobs are claimed for 30 seconds, and
  -- each is worked on
  unfoldable pub process_once : WorkerState A → WorkerState A
  process_once w =
      let released = (release_expired_job_leases env.now w.jobs).1 in
      let (claimed, jobs) = claim_due_jobs env.now (env.lease_clock + 30) 100 released in
      process_all claimed (record w { jobs = jobs })

-- the ticks of `run`
unfoldable pub run : {A : Type 0} → List (Env A) → WorkerState A → WorkerState A
run [] w = w
run (env ∷ envs) w = run envs (process_once env w)
