-- ===== src/Worker/Tests.antt =====
-- The worker at concrete states.
use proofrail_evidence_api.Prelude.{
  ℕ, String, ◌≡◌, refl, true, false, none, some, List, [], ◌∷◌, arith, inr, map,
}
use proofrail_evidence_api.Table.{update_where, delete_where, count_where, order_by, clamp_limit}
use proofrail_evidence_api.OrderedDict
use proofrail_evidence_api.Jobs
use proofrail_evidence_api.Jobs.{
  Job, Jobs, Payload, no_jobs, enqueue_job, claim_due_jobs, select_due, is_due, mark_job_retry,
  mark_job_success, mark_job_failed, delete_pending_jobs, release_expired_job_leases, is_stale,
}
use proofrail_evidence_api.Jobs.Rows.{IsValid}
use proofrail_evidence_api.Webhooks.{
  Subscription, Delivery, DeliveryStatus, get_webhook_delivery, get_webhook_subscription,
  next_attempt_ts, mark_webhook_delivery_failed, mark_webhook_delivery_retry,
  mark_webhook_delivery_success,
}
use proofrail_evidence_api.Audit.{insert_audit_event}
use proofrail_evidence_api.Caches.{put}
use proofrail_evidence_api.Worker.{
  Env, Ingested, WorkerState, process_once, process_all, process_job, process_payload,
  process_delivery, process_refresh, attempt_delivery, record_result, reschedule, refresh_key, run,
}
use proofrail_evidence_api.Worker.Untouched.{Counted, closed_delivery_stays, run-Counted}
use proofrail_evidence_api.Worker.Orphans.{orphan_never_retried}
use proofrail_evidence_api.Worker.Retries.{Attempt, failed_attempt_orphans}

program : Unit {0}
unfolding process_once process_all process_job process_payload process_delivery process_refresh
    attempt_delivery record_result reschedule refresh_key run enqueue_job claim_due_jobs select_due
    is_due mark_job_retry mark_job_success mark_job_failed delete_pending_jobs
    release_expired_job_leases is_stale update_where delete_where count_where order_by clamp_limit
    get_webhook_delivery get_webhook_subscription next_attempt_ts mark_webhook_delivery_failed
    mark_webhook_delivery_retry mark_webhook_delivery_success insert_audit_event put OrderedDict.set
program = tt

-- every post is answered with a 500
abbrev env : ℕ → Env String
env now = record {
  now = now;
  lease_clock = now;
  wall = λ _. now;
  ingest = λ _ _. Ingested.artifact "lists";
  list_version = λ a. a;
  deliver = λ _ _. record { ok = false; status_code = some 500; error = some "http_error" };
  webhook_max_attempts = 3;
  webhook_retry_base_ms = 2000;
}

abbrev sub : Subscription
sub = record {
  subscription_id = "s";
  customer_id = "c";
  url = "https://example.org/";
  secret = "secret88";
  events = "*" ∷ [];
  active = true;
  created_at = 0;
}

abbrev delivery : DeliveryStatus → ℕ → Delivery
delivery status attempts = record {
  delivery_id = 1;
  subscription_id = "s";
  customer_id = "c";
  event_type = "screening.created";
  event_id = "e";
  payload_json = "{}";
  status = status;
  attempt_count = attempts;
  next_attempt_at = 10;
  last_attempt_at = none;
  last_status_code = none;
  last_error = none;
  created_at = 10;
  updated_at = 10;
}

abbrev asks_1 : Payload
asks_1 = record { key = none; retrieval_ts = none; interval_s = none; delivery_id = some 1 }

abbrev job : Job
job = record {
  job_id = 1;
  job_type = "webhook_delivery";
  job_key = some "1";
  payload_json = some asks_1;
  status = Jobs.queued;
  attempt_count = 0;
  run_at = 10;
  last_error = none;
  created_at = 10;
  updated_at = 10;
  locked_until = none;
}

abbrev state : DeliveryStatus → ℕ → List Job → WorkerState String
state status attempts jobs = record {
  jobs = record { rows = jobs; next_id = 2 };
  deliveries = record { rows = delivery status attempts ∷ []; next_id = 2 };
  subs = sub ∷ [];
  audit = [];
  ingest_cache = record { ttl_seconds = 3600; entries = [] };
}

abbrev fresh_state : WorkerState String
fresh_state = state DeliveryStatus.queued 0 (job ∷ [])

abbrev statuses : WorkerState String → List (DeliveryStatus × ℕ × ℕ)
statuses w =
    map (λ (d : Delivery). (d.status, d.attempt_count, d.next_attempt_at)) w.deliveries.rows

-- one failed attempt; the ticks that follow, long after the next attempt is due, change nothing
left_in_retry :
    (statuses (run (env 10 ∷ []) fresh_state) ≡ (DeliveryStatus.retry, 1, 12) ∷ [])
    × (statuses (run (env 10 ∷ env 12 ∷ env 1000 ∷ []) fresh_state)
        ≡ (DeliveryStatus.retry, 1, 12) ∷ [])
unfolding program
left_in_retry = (refl, refl)

fresh_state-IsValid : IsValid fresh_state.jobs
fresh_state-IsValid = omega arith

closed_delivery_stays_example :
    get_webhook_delivery 1
      (run (env 10 ∷ env 20 ∷ []) (state DeliveryStatus.delivered 0 (job ∷ []))).deliveries
    ≡ some (delivery DeliveryStatus.delivered 0)
unfolding get_webhook_delivery
closed_delivery_stays_example =
    closed_delivery_stays (env 10 ∷ env 20 ∷ []) (state DeliveryStatus.delivered 0 (job ∷ [])) 1
      (delivery DeliveryStatus.delivered 0) refl refl

run-Counted_example :
    Counted 3
      (delivery DeliveryStatus.queued 0)
      (get_webhook_delivery 1 (run (env 10 ∷ env 20 ∷ []) fresh_state).deliveries)
unfolding get_webhook_delivery
run-Counted_example =
    run-Counted 3 (env 10 ∷ env 20 ∷ []) fresh_state 1 (delivery DeliveryStatus.queued 0)
      (refl, (refl, tt)) refl (omega arith)

orphan_never_retried_example :
    get_webhook_delivery 1 (run (env 50 ∷ []) (state DeliveryStatus.retry 1 [])).deliveries
    ≡ get_webhook_delivery 1 (state DeliveryStatus.retry 1 []).deliveries
orphan_never_retried_example =
    orphan_never_retried (env 50 ∷ []) (state DeliveryStatus.retry 1 []) 1 (omega arith) tt

attempt : Attempt (env 10) fresh_state job 1 (delivery DeliveryStatus.queued 0) sub
unfolding get_webhook_delivery get_webhook_subscription
attempt = record {
  payload = asks_1;
  is_webhook = refl;
  not_refresh = refl;
  loaded = refl;
  asks = refl;
  found = refl;
  unfinished = refl;
  due = omega arith;
  subscribed = refl;
}

failed_attempt_orphans_example :
    (x : Delivery) × (get_webhook_delivery 1
        (run (env 12 ∷ env 1000 ∷ []) (process_job (env 10) job fresh_state)).deliveries
      ≡ some x)
    × (x.status ≡ DeliveryStatus.retry)
    × (x.attempt_count ≡ 1)
failed_attempt_orphans_example =
    failed_attempt_orphans (env 10) fresh_state job 1 (delivery DeliveryStatus.queued 0) sub attempt
      (env 12 ∷ env 1000 ∷ []) fresh_state-IsValid ((λ _. inr refl), tt) refl refl (omega arith)
