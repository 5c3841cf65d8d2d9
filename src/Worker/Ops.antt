-- ===== src/Worker/Ops.antt =====
-- What a tick does to the job table is a row of the table's operations: whatever each of them keeps,
-- the tick keeps.
use proofrail_evidence_api.Prelude.{
  ◌+◌, ℕ, String, ◌≡◌, refl, Option, none, some, List, [], ◌∷◌, str_eq, ltb, Bool-cases,
  Option-cases, inl, inr, ◌⊎◌,
}
use proofrail_evidence_api.Jobs.{
  Job, Jobs, Payload, mark_job_success, mark_job_retry, mark_job_failed,
}
use proofrail_evidence_api.Jobs.Rows.{
  Op, apply, enqueue, claim, delete_pending, release, success, retry_at, fail,
}
use proofrail_evidence_api.Webhooks.{get_webhook_delivery, is_open}
use proofrail_evidence_api.Worker.{
  Ingested, artifact, failure, Env, WorkerState, refresh_key, reschedule, reschedule_if,
  process_refresh, process_delivery, process_payload, process_job, process_all, process_once,
}

pub Ingested-cases :
    {A : Type 0} (i : Ingested A)
    → ((a : A) × (i ≡ artifact a)) ⊎ ((error : String) × (i ≡ failure error))
Ingested-cases (artifact a) = inl (a, refl)
Ingested-cases (failure error) = inr (error, refl)

-- What the work on one job does to the table: it marks the job, and may reschedule a refresh first.
module _ {A : Type 0} (env : Env A) (j : Job) (P : Jobs → Type 0)
    (success-keeps : (t : Jobs) → P t → P (mark_job_success j.job_id env.now t))
    (retry-keeps : (run_at : ℕ) (error : Option String) (t : Jobs)
      → P t
      → P (mark_job_retry j.job_id env.now run_at error t))
    (failed-keeps : (error : Option String) (t : Jobs)
      → P t
      → P (mark_job_failed j.job_id env.now error t))
    (reschedule_if-keeps : (interval : Option ℕ) (key : String) (wall : ℕ) (t : Jobs)
      → P t
      → P (reschedule_if env interval key wall t)) where
  process_refresh-keeps :
      (p : Payload) (w : WorkerState A) → P w.jobs → P (process_refresh env j p w).jobs
  unfolding process_refresh
  process_refresh-keeps p w h =
      elim (Ingested-cases (env.ingest (refresh_key p j) p.retrieval_ts)) [
        | inr (error, failed_) ↦ rw (failed_, process_refresh) (retry-keeps _ _ w.jobs h)
        | inl (a, fetched) ↦
            rw (fetched, process_refresh)
              (success-keeps _ (reschedule_if-keeps p.interval_s _ _ w.jobs h))
      ]

  process_delivery-keeps :
      (id : ℕ) (w : WorkerState A) → P w.jobs → P (process_delivery env j id w).jobs
  unfolding process_delivery
  process_delivery-keeps id w h = elim (Option-cases (get_webhook_delivery id w.deliveries)) [
    | inl gone ↦ rw (gone, process_delivery) (success-keeps w.jobs h)
    | inr (d, found) ↦
        rw (found, process_delivery)
          (elim (Bool-cases (is_open d.status)) [
            | inr closed ↦ rw closed (success-keeps w.jobs h)
            | inl open_ ↦ rw open_ (elim (Bool-cases (ltb env.now d.next_attempt_at)) [
              | inl early ↦ rw early (retry-keeps _ _ w.jobs h)
              | inr due ↦ rw due (success-keeps w.jobs h)
            ])
          ])
  ]

  process_payload-keeps :
      (p : Payload) (w : WorkerState A) → P w.jobs → P (process_payload env j p w).jobs
  unfolding process_payload
  process_payload-keeps p w h = elim (Bool-cases (str_eq j.job_type "ingest_refresh")) [
    | inl refresh ↦ rw (refresh, process_payload) (process_refresh-keeps p w h)
    | inr other ↦ elim (Bool-cases (str_eq j.job_type "webhook_delivery")) [
      | inr unknown ↦ rw (other, unknown, process_payload) (failed-keeps _ w.jobs h)
      | inl webhook ↦ elim (Option-cases p.delivery_id) [
        | inl no_id ↦ rw (other, webhook, no_id, process_payload) (failed-keeps _ w.jobs h)
        | inr (id, asks) ↦
            rw (other, webhook, asks, process_payload) (process_delivery-keeps id w h)
      ]
    ]
  ]

  pub process_job-keeps : (w : WorkerState A) → P w.jobs → P (process_job env j w).jobs
  unfolding process_job
  process_job-keeps w h = elim (Option-cases j.payload_json) [
    | inl bad ↦ rw (bad, process_job) (failed-keeps _ w.jobs h)
    | inr (p, loaded) ↦ rw (loaded, process_job) (process_payload-keeps p w h)
  ]

-- A property that every operation of the table keeps is kept by a tick.
module _ (P : Jobs → Type 0) (keeps : (op : Op) (t : Jobs) → P t → P (apply op t)) where
  module _ {A : Type 0} (env : Env A) where
    reschedule_if-op :
        (interval : Option ℕ) (key : String) (wall : ℕ) (t : Jobs)
        → P t
        → P (reschedule_if env interval key wall t)
    unfolding reschedule
    reschedule_if-op none key wall t h = h
    reschedule_if-op (some interval_s) key wall t h =
        unfold apply in
        keeps (enqueue _ _ _ _ _) _ (keeps (delete_pending "ingest_refresh" key) t h)

    process_job-op : (j : Job) (w : WorkerState A) → P w.jobs → P (process_job env j w).jobs
    process_job-op j =
        process_job-keeps env j P (λ t h. unfold apply in keeps (success j.job_id env.now) t h)
          (λ run_at error t h. unfold apply in keeps (retry_at j.job_id env.now run_at error) t h)
          (λ error t h. unfold apply in keeps (fail j.job_id env.now error) t h) reschedule_if-op

    process_all-op : (js : List Job) (w : WorkerState A) → P w.jobs → P (process_all env js w).jobs
    unfolding process_all
    process_all-op [] w h = h
    process_all-op (j ∷ js) w h = process_all-op js (process_job env j w) (process_job-op j w h)

    pub process_once-keeps : (w : WorkerState A) → P w.jobs → P (process_once env w).jobs
    unfolding process_once
    process_once-keeps w h = process_all-op _ _ (
        unfold apply in
        keeps (claim env.now (env.lease_clock + 30) 100) _ (keeps (release env.now) w.jobs h))
