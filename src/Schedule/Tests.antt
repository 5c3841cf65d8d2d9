-- ===== src/Schedule/Tests.antt =====
-- A schedule asked for twice, and the witnesses.
use proofrail_evidence_api.Prelude.{String, true, none, some, []}
use proofrail_evidence_api.Table.{update_where, delete_where, count_where}
use proofrail_evidence_api.Jobs.{
  Job, Jobs, no_jobs, enqueue_job, delete_pending_jobs, mark_job_success, queued,
}
use proofrail_evidence_api.Worker.{Env, WorkerState, artifact, refresh_key}
use proofrail_evidence_api.Schedule.{
  replace_refresh, schedule_refresh, stop_schedule, refresh_payload,
}

program : Unit {0}
unfolding update_where delete_where count_where enqueue_job delete_pending_jobs mark_job_success
    replace_refresh schedule_refresh stop_schedule refresh_key
program = tt

abbrev scheduled : Jobs
scheduled = (replace_refresh "c" none (some 3600) 5 5 no_jobs).1

abbrev env : Env String
env = record {
  now = 10;
  lease_clock = 10;
  wall = λ id. 11;
  ingest = λ key ts. artifact "v1";
  list_version = λ a. a;
  deliver = λ sub d. record { ok = true; status_code = some 200; error = none };
  webhook_max_attempts = 3;
  webhook_retry_base_ms = 1000;
}

abbrev job : Job
job = record {
  job_id = 1;
  job_type = "ingest_refresh";
  job_key = some "c";
  payload_json = some (refresh_payload "c" none (some 3600));
  status = queued;
  attempt_count = 0;
  run_at = 5;
  last_error = none;
  created_at = 5;
  updated_at = 5;
  locked_until = none;
}

abbrev state : WorkerState String
state = record {
  jobs = scheduled;
  deliveries = record { rows = []; next_id = 1 };
  subs = [];
  audit = [];
  ingest_cache = record { ttl_seconds = 60; entries = [] };
}
