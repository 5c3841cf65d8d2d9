-- ===== src/Jobs/Tests.antt =====
-- The job queue at concrete tables.
use proofrail_evidence_api.Prelude.{
  inl, ◌≡◌, refl, true, false, none, some, List, [], ◌∷◌, arith, All, map,
}
use proofrail_evidence_api.Table.{update_where, delete_where, count_where, order_by, clamp_limit}
use proofrail_evidence_api.Jobs.{
  JobStatus, Job, Jobs, no_jobs, enqueue_job, claim_due_jobs, select_due, is_due, is_among,
  mark_job_retry, mark_job_success, delete_pending_jobs, count_stale_job_leases,
  release_expired_job_leases, is_stale,
}
use proofrail_evidence_api.Jobs.Rows.{
  delete_before, success, release, claim, Op, enqueue, run, apply,
}
use proofrail_evidence_api.Jobs.Finished.{rows_of, finished_job_stays}
use proofrail_evidence_api.Jobs.Leases.{claims_exclusive, claim_due_jobs_complete}

program : Unit {0}
unfolding run apply enqueue_job claim_due_jobs select_due is_due mark_job_retry mark_job_success
    delete_pending_jobs count_stale_job_leases release_expired_job_leases is_stale update_where
    delete_where count_where order_by clamp_limit
program = tt

abbrev ops : List Op
ops =
    enqueue "webhook_delivery" (some "7") none 10 10
    ∷ enqueue "ingest_refresh" (some "k") none 5 10
    ∷ enqueue "ingest_refresh" (some "k") none 90 10
    ∷ []

abbrev queue : Jobs
queue = run ops no_jobs

-- the two due jobs come out in the order of `run_at`, and the later claim finds nothing
claims :
    (map (λ (j : Job). j.job_id) (claim_due_jobs 20 50 100 queue).0 ≡ 2 ∷ 1 ∷ [])
    × ((claim_due_jobs 30 60 100 (claim_due_jobs 20 50 100 queue).1).0 ≡ [])
    × (map (λ (j : Job). j.job_id) (claim_due_jobs 50 80 100 (claim_due_jobs 20 50 100 queue).1).0
        ≡ 2 ∷ 1 ∷ [])
unfolding program
claims = (refl, refl, refl)

claims_exclusive_example :
    All
      (λ j. is_among (claim_due_jobs 20 50 100 queue).0 j ≡ false)
      (claim_due_jobs 30 60 100 (claim_due_jobs 20 50 100 queue).1).0
claims_exclusive_example = claims_exclusive 20 50 100 30 60 100 queue (omega arith)

-- a job whose lease ran out at 50
abbrev leased : Job
leased = record {
  job_id = 1;
  job_type = "webhook_delivery";
  job_key = some "7";
  payload_json = none;
  status = JobStatus.queued;
  attempt_count = 0;
  run_at = 10;
  last_error = none;
  created_at = 10;
  updated_at = 20;
  locked_until = some 50;
}

claim_due_jobs_complete_example :
    is_among (claim_due_jobs 60 90 100 (claim_due_jobs 20 50 100 queue).1).0 leased ≡ true
unfolding program
claim_due_jobs_complete_example =
    claim_due_jobs_complete 60 90 100 (claim_due_jobs 20 50 100 queue).1 leased (omega arith)
      (inl refl) refl (omega arith) (omega arith)

-- a job that failed, and operations that would take up a pending one
abbrev failed_job : Job
failed_job = record leased { status = JobStatus.failed; locked_until = some 5 }

abbrev later_ops : List Op
later_ops =
    claim 60 90 100
    ∷ release 60
    ∷ enqueue "webhook_delivery" (some "7") none 10 10
    ∷ success 2 70
    ∷ delete_before 10 (JobStatus.failed ∷ [])
    ∷ []

finished_job_stays_example :
    All
      (λ r. r ≡ failed_job)
      (rows_of 1 (run later_ops (record { rows = failed_job ∷ []; next_id = 2 })).rows)
finished_job_stays_example =
    finished_job_stays later_ops (record { rows = failed_job ∷ []; next_id = 2 }) failed_job refl
      (omega arith) (refl, tt) (tt, (tt, (tt, (refl, (tt, tt)))))
