-- ===== src/Worker/Retries.antt =====
-- What becomes of a delivery after a failed attempt, when the worker is left alone.
use proofrail_evidence_api.Prelude.{
  ℕ, ◌+◌, ◌≤◌, ◌<◌, ◌≡◌, refl, sym, ap, ◌∙◌, true, false, some, List, [], arith, ◌==◌, ==_iff,
  str_eq, ltb, All, ◌⊎◌,
}
use proofrail_evidence_api.Table.{All-update_where}
use proofrail_evidence_api.Jobs.{Job, Jobs, Payload, is_pending, mark_job_success, done}
use proofrail_evidence_api.Jobs.Rows.{IsValid, apply-IsValid, apply, success}
use proofrail_evidence_api.Webhooks.{
  Delivery, Subscription, DeliveryStatus, get_webhook_delivery, get_webhook_subscription, is_open,
}
use proofrail_evidence_api.Webhooks.Attempts.{get_webhook_delivery_id, updated_hit}
use proofrail_evidence_api.Worker.{
  Env, WorkerState, attempt_delivery, process_delivery, process_payload, process_job, run,
}
use proofrail_evidence_api.Worker.Attempts.{attempt_row, get-attempt_delivery}
use proofrail_evidence_api.Worker.Orphans.{wants, Settled, orphan_never_retried}

-- of the jobs that ask for the delivery, none but `j` is pending
abbrev pub OnlyPending : ℕ → Job → List Job → Type 0
OnlyPending e j rows =
    All (λ r. wants e r ≡ true → (is_pending r.status ≡ false) ⊎ ((r.job_id == j.job_id) ≡ true))
      rows

done-Settled :
    (e now : ℕ) (j : Job) (t : Jobs)
    → OnlyPending e j t.rows
    → Settled e [] (mark_job_success j.job_id now t).rows
unfolding mark_job_success
done-Settled e now j t h =
    All-update_where _ _ (λ r. r.job_id == j.job_id)
      (λ r. record r { status = done; updated_at = now }) (λ r hit k w. (refl, refl))
      (λ r miss k w. (ground (arith, k w), refl)) t.rows h

-- a job of a delivery that is to be attempted
pub record Attempt {A : Type 0} (env : Env A) (w : WorkerState A) (j : Job) (e : ℕ) (d : Delivery)
    (sub : Subscription) : Type 0 where
  pub payload : Payload
  pub is_webhook : str_eq j.job_type "webhook_delivery" ≡ true
  pub not_refresh : str_eq j.job_type "ingest_refresh" ≡ false
  pub loaded : j.payload_json ≡ some payload
  pub asks : payload.delivery_id ≡ some e
  pub found : get_webhook_delivery e w.deliveries ≡ some d
  pub unfinished : is_open d.status ≡ true
  pub due : d.next_attempt_at ≤ env.now
  pub subscribed : get_webhook_subscription d.subscription_id w.subs ≡ some sub

module _ {A : Type 0} (env : Env A) (w : WorkerState A) (j : Job) (e : ℕ) (d : Delivery)
    (sub : Subscription) (a : Attempt env w j e d sub) where
  process_job-attempt : process_job env j w ≡ record w {
    deliveries = attempt_delivery env d w;
    jobs = mark_job_success j.job_id env.now w.jobs;
  }
  unfolding process_job process_payload process_delivery
  process_job-attempt =
      let early : ltb env.now d.next_attempt_at ≡ false = let late = a.due in ground arith in
      rw (
        a.loaded, process_job, a.not_refresh, a.is_webhook, a.asks, process_delivery, a.found,
        a.unfinished, early,
      )

  get-process_job :
      get_webhook_delivery e (process_job env j w).deliveries
      ≡ some (attempt_row env d (some sub) d)
  get-process_job =
      let own : d.delivery_id ≡ e = get_webhook_delivery_id e w.deliveries d a.found in
      rw process_job-attempt (
        get-attempt_delivery env d w e
        ∙ updated_hit (e == d.delivery_id) _ _ d ((==_iff e d.delivery_id).1 (sym own)) a.found
        ∙ ap (λ s. some (attempt_row env d s d)) a.subscribed)

  -- After an attempt that fails below `webhook_max_attempts`, for an active subscription, the
  -- delivery waits in `retry` with one attempt more; and if the queue is valid and no other
  -- pending job asked for it, it stays so, however many ticks of the worker pass.
  pub failed_attempt_orphans :
      (envs : List (Env A))
      → IsValid w.jobs
      → OnlyPending e j w.jobs.rows
      → sub.active ≡ true
      → (env.deliver sub d).ok ≡ false
      → d.attempt_count + 1 < env.webhook_max_attempts
      → (x : Delivery) × (get_webhook_delivery e (run envs (process_job env j w)).deliveries
          ≡ some x)
        × (x.status ≡ DeliveryStatus.retry)
        × (x.attempt_count ≡ d.attempt_count + 1)
  failed_attempt_orphans envs valid only active bad below = (
    attempt_row env d (some sub) d,
    orphan_never_retried envs (process_job env j w) e
          (rw process_job-attempt
            (unfold apply in apply-IsValid (success j.job_id env.now) w.jobs valid))
          (rw process_job-attempt (done-Settled e env.now j w.jobs only))
        ∙ get-process_job,
    unfold attempt_row in ground arith,
    unfold attempt_row in ground arith,
  )
