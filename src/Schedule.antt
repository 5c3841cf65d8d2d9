-- ===== src/Schedule.antt =====
-- The refresh schedule: `refresh_ingest`, `schedule_refresh` and `stop_schedule` of
-- ProofRail/service/app.py, which keep one pending refresh per key, as the worker does when it
-- re-enqueues a scheduled one.
pub mod Single
mod Tests
use proofrail_evidence_api.Prelude.{ℕ, String, Bool, Option, none, some, str_eq, if◌then◌else◌}
use proofrail_evidence_api.Jobs.{Jobs, Payload, enqueue_job, delete_pending_jobs}
use proofrail_evidence_api.Worker.{or_else}

-- `customer_id or global_ingest_key`
abbrev pub ingest_key : Option String → String
ingest_key customer_id = or_else customer_id "__global__"

abbrev pub refresh_payload : String → Option ℕ → Option ℕ → Payload
refresh_payload key retrieval_ts interval_s = record {
  key = some key;
  retrieval_ts = retrieval_ts;
  interval_s = interval_s;
  delivery_id = none;
}

-- `delete_pending_jobs`, then `enqueue_job`
unfoldable pub replace_refresh : String → Option ℕ → Option ℕ → ℕ → ℕ → Jobs → ℕ × Jobs
replace_refresh key retrieval_ts interval_s run_at now t =
    enqueue_job "ingest_refresh" (some key) (some (refresh_payload key retrieval_ts interval_s))
      run_at now (delete_pending_jobs "ingest_refresh" key t).1

unfoldable pub refresh_ingest : Option String → Option ℕ → ℕ → Jobs → ℕ × Jobs
refresh_ingest customer_id retrieval_ts now t =
    replace_refresh (ingest_key customer_id) retrieval_ts none now now t

-- `none` is the 409 of a scheduler that is off
unfoldable pub schedule_refresh : Bool → Option String → ℕ → ℕ → Jobs → Option (ℕ × Jobs)
schedule_refresh enable_scheduler customer_id interval_seconds now t =
    if enable_scheduler
    then some (replace_refresh (ingest_key customer_id) none (some interval_seconds) now now t)
    else none

unfoldable pub stop_schedule : Bool → Option String → Jobs → Option (ℕ × Jobs)
stop_schedule enable_scheduler customer_id t =
    if enable_scheduler
    then some (delete_pending_jobs "ingest_refresh" (ingest_key customer_id) t)
    else none
