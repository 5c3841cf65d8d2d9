-- ===== src/Worker/Orphans.antt =====
-- A delivery in retry that no pending job asks for: the worker alone never comes back to it, and a
-- failed attempt leaves just that.
use proofrail_evidence_api.Prelude.{
  All-filter_imp, inr, inl, ◌+◌, ==-refl, Bool-cases, ◌∙◌, take, All-zip, zero, filter, suc, take,
  ◌<◌, ◌≤◌, any, ℕ, String, ◌≡◌, refl, Bool, true, false, not, Option, none, some, List, [], ◌∷◌,
  ◌++◌, arith, ◌==◌, All, All-filter, All-append, All-imp,
}
use proofrail_evidence_api.Table.{
  any-order_by, order_by, Increasing, update_where, delete_where, All-update_where,
}
use proofrail_evidence_api.Jobs.{
  by_run_at, Payload, release_expired_job_leases, is_due, select_due, claim_due_jobs, Job, Jobs,
  is_pending, is_among, enqueue_job, delete_pending_jobs, mark_job_success, mark_job_retry,
  mark_job_failed,
}
use proofrail_evidence_api.Worker.Ops.{process_once-keeps, process_job-keeps}
use proofrail_evidence_api.Jobs.Rows.{IsValid, apply-IsValid, apply, release}
use proofrail_evidence_api.Jobs.Leases.{All-select_due}
use proofrail_evidence_api.Worker.Untouched.{process_job-Touched, untouched, attempted}
use proofrail_evidence_api.Worker.{
  get_webhook_delivery, process_once, process_all, Env, WorkerState, reschedule, reschedule_if,
  process_job, run,
}

-- the job asks for the delivery
abbrev pub wants : ℕ → Job → Bool
wants e j = elim j.payload_json [
  | none ↦ false
  | some p ↦ elim p.delivery_id [ none ↦ false | some id ↦ id == e ]
]

-- no row that asks for the delivery is pending, but for those of the jobs being worked on
abbrev pub Settled : ℕ → List Job → List Job → Type 0
Settled e working rows =
    All (λ r. wants e r ≡ true → (is_pending r.status ≡ false) × (is_among working r ≡ false)) rows

-- one operation keeps it
module _ (e : ℕ) (js : List Job) (rows : List Job) (h : Settled e js rows) where
  update-Settled :
      (p : Job → Bool) (f : Job → Job)
      → ((r : Job)
          → p r ≡ true
          → (wants e r ≡ true → (is_pending r.status ≡ false) × (is_among js r ≡ false))
          → wants e (f r) ≡ true
          → (is_pending (f r).status ≡ false) × (is_among js (f r) ≡ false))
      → Settled e js (update_where p f rows)
  update-Settled p f step =
      All-update_where _ _ p f (λ r hit k. step r hit k) (λ r miss k. k) rows h

  delete-Settled : (p : Job → Bool) → Settled e js (delete_where p rows)
  unfolding delete_where
  delete-Settled p = All-filter _ (λ r. not (p r)) rows h

  append-Settled : (r : Job) → wants e r ≡ false → Settled e js (rows ++ r ∷ [])
  append-Settled r idle = All-append _ rows (r ∷ []) h ((λ w. absurd (ground arith)), tt)

Settled-tail : (e : ℕ) (j : Job) (js rows : List Job) → Settled e (j ∷ js) rows → Settled e js rows
Settled-tail e j js rows h = All-imp (λ r k w. ((k w).0, ground (arith, (k w).1))) rows h

module _ (e : ℕ) (j : Job) (js : List Job) (now : ℕ) (t : Jobs)
    (h : Settled e (j ∷ js) t.rows) where
  success-Settled : Settled e (j ∷ js) (mark_job_success j.job_id now t).rows
  unfolding mark_job_success
  success-Settled = update-Settled e (j ∷ js) t.rows h _ _ (λ r hit k w. (refl, (k w).1))

  failed-Settled :
      (error : Option String) → Settled e (j ∷ js) (mark_job_failed j.job_id now error t).rows
  unfolding mark_job_failed
  failed-Settled error = update-Settled e (j ∷ js) t.rows h _ _ (λ r hit k w. (refl, (k w).1))

  -- a retry makes the row of the job at hand pending again, and that row does not ask
  retry-Settled :
      (run_at : ℕ) (error : Option String)
      → Settled e (j ∷ js) (mark_job_retry j.job_id now run_at error t).rows
  unfolding mark_job_retry
  retry-Settled run_at error =
      update-Settled e (j ∷ js) t.rows h _ _ (λ r hit k w. absurd (clash r hit (k w).1))
    where
      clash : (r : Job) → (r.job_id == j.job_id) ≡ true → is_among (j ∷ js) r ≡ false → ⊥
      clash r hit out = ground arith

module _ {A : Type 0} (env : Env A) (e : ℕ) (j : Job) (js : List Job) where
  reschedule_if-Settled :
      (interval : Option ℕ) (key : String) (wall : ℕ) (t : Jobs)
      → Settled e (j ∷ js) t.rows
      → Settled e (j ∷ js) (reschedule_if env interval key wall t).rows
  reschedule_if-Settled none key wall t h = h
  reschedule_if-Settled (some interval_s) key wall t h =
      unfold reschedule enqueue_job delete_pending_jobs in
      append-Settled e (j ∷ js) _ (delete-Settled e (j ∷ js) t.rows h _) _ refl

  process_job-Settled :
      (w : WorkerState A)
      → Settled e (j ∷ js) w.jobs.rows
      → Settled e js (process_job env j w).jobs.rows
  process_job-Settled w h = Settled-tail e j js (process_job env j w).jobs.rows (
      process_job-keeps env j (λ t. Settled e (j ∷ js) t.rows)
        (λ t k. success-Settled e j js env.now t k)
        (λ run_at error t k. retry-Settled e j js env.now t k run_at error)
        (λ error t k. failed-Settled e j js env.now t k error) reschedule_if-Settled w h)

-- what a claim selects is not among the rows that are not due
among_later :
    (p : Job → Bool) (r : Job) (bound : ℕ) (rows : List Job)
    → Increasing (λ (x : Job). x.job_id) bound rows
    → r.job_id < bound
    → is_among (filter p rows) r ≡ false
among_later p r bound [] inc less = refl
among_later p r bound (x ∷ rows) inc less =
    ground (arith, among_later p r (suc x.job_id) rows inc.1)

not_among :
    (p : Job → Bool) (bound : ℕ) (rows : List Job)
    → Increasing (λ (x : Job). x.job_id) bound rows
    → All (λ r. (bound ≤ r.job_id) × (p r ≡ false → is_among (filter p rows) r ≡ false)) rows
not_among p bound [] inc = tt
not_among p bound (x ∷ rows) inc = (
  (inc.0, λ miss. ground (arith, among_later p x (suc x.job_id) rows inc.1)),
  All-imp (λ r k. (omega arith, λ miss. ground (arith, k.1 miss))) rows
      (not_among p (suc x.job_id) rows inc.1),
)

any-take {ℓ} :
    {B : Type ℓ} (p : B → Bool) (n : ℕ) (xs : List B) → any p xs ≡ false → any p (take n xs) ≡ false
any-take p zero xs h = refl
any-take p (suc n) [] h = refl
any-take p (suc n) (x ∷ xs) h = ground (arith, any-take p n xs)

-- a claim takes no job that asks for a settled delivery
module _ (e now until limit : ℕ) (t : Jobs) (valid : IsValid t) (h : Settled e [] t.rows) where
  not_claimed : All (λ r. is_due now r ≡ false → is_among (select_due now limit t) r ≡ false) t.rows
  unfolding select_due
  not_claimed =
      All-imp
        (λ r k miss.
          any-take (λ i. i.job_id == r.job_id) _ (order_by by_run_at (filter (is_due now) t.rows))
            (any-order_by by_run_at (λ i. i.job_id == r.job_id) (filter (is_due now) t.rows)
              ∙ k.1 miss))
        t.rows (not_among (is_due now) 1 t.rows valid.distinct)

  idle_not_due : (r : Job) → is_pending r.status ≡ false → is_due now r ≡ false
  unfolding is_due
  idle_not_due r idle = rw idle

  claim-Settled : Settled e (select_due now limit t) (claim_due_jobs now until limit t).1.rows
  unfolding claim_due_jobs
  claim-Settled =
      All-update_where _ _ _ (λ j. record j { locked_until = some until; updated_at = now })
        (λ r _ k w. ((k.0 w).0, k.1 (idle_not_due r (k.0 w).0)))
        (λ r _ k w. ((k.0 w).0, k.1 (idle_not_due r (k.0 w).0))) t.rows
        (All-zip _ _ t.rows h not_claimed)

  claimed_idle : All (λ j. wants e j ≡ false) (select_due now limit t)
  claimed_idle =
      All-select_due (λ j. wants e j ≡ false) now limit t
        (All-filter_imp _ (is_due now) t.rows (All-imp (λ r k due. idle r k due) t.rows h))
    where
      idle :
          (r : Job)
          → (wants e r ≡ true → (is_pending r.status ≡ false) × (is_among [] r ≡ false))
          → is_due now r ≡ true
          → wants e r ≡ false
      idle r k due = elim (Bool-cases (wants e r)) [
        | inl w ↦ absurd (ground (arith, idle_not_due r (k w).0))
        | inr fine ↦ fine
      ]

module _ {A : Type 0} (env : Env A) (e : ℕ) where
  process_job-idle :
      (j : Job) (w : WorkerState A)
      → wants e j ≡ false
      → get_webhook_delivery e (process_job env j w).deliveries
        ≡ get_webhook_delivery e w.deliveries
  process_job-idle j w idle = elim (process_job-Touched env j w e) [
    | untouched same ↦ same
    | attempted p d loaded asks found open_ due read ↦ absurd (clash p loaded asks)
  ]
    where
      clash : (p : Payload) → j.payload_json ≡ some p → p.delivery_id ≡ some e → ⊥
      clash p loaded asks = ground (arith, ==-refl e)

  process_all-idle :
      (js : List Job) (w : WorkerState A)
      → All (λ j. wants e j ≡ false) js
      → Settled e js w.jobs.rows
      → (get_webhook_delivery e (process_all env js w).deliveries
          ≡ get_webhook_delivery e w.deliveries)
        × Settled e [] (process_all env js w).jobs.rows
  unfolding process_all
  process_all-idle [] w idle h = (refl, h)
  process_all-idle (j ∷ js) w idle h =
      let (same, settled) =
        process_all-idle js (process_job env j w) idle.1 (process_job-Settled env e j js w h) in
      (same ∙ process_job-idle j w idle.0, settled)

  process_once-idle :
      (w : WorkerState A)
      → IsValid w.jobs
      → Settled e [] w.jobs.rows
      → (get_webhook_delivery e (process_once env w).deliveries
          ≡ get_webhook_delivery e w.deliveries)
        × Settled e [] (process_once env w).jobs.rows
  unfolding process_once select_due claim_due_jobs
  process_once-idle w valid h =
      let t = (release_expired_job_leases env.now w.jobs).1 in
      let valid' : IsValid t = unfold apply in apply-IsValid (release env.now) w.jobs valid in
      let settled : Settled e [] t.rows =
        unfold release_expired_job_leases in
        update-Settled e [] w.jobs.rows h _ _ (λ r hit k wanted. k wanted) in
      process_all-idle _ _ (claimed_idle e env.now 0 100 t valid' settled)
        (claim-Settled e env.now (env.lease_clock + 30) 100 t valid' settled)

-- In a valid queue, a delivery that no pending job asks for is never attempted again by the
-- worker, however many ticks pass and whatever else is in the queue.
pub orphan_never_retried :
    {A : Type 0} (envs : List (Env A)) (w : WorkerState A) (e : ℕ)
    → IsValid w.jobs
    → Settled e [] w.jobs.rows
    → get_webhook_delivery e (run envs w).deliveries ≡ get_webhook_delivery e w.deliveries
unfolding run
orphan_never_retried [] w e valid h = refl
orphan_never_retried (env ∷ envs) w e valid h =
    let (same, settled) = process_once-idle env e w valid h in
    orphan_never_retried envs (process_once env w) e
      (process_once-keeps IsValid apply-IsValid env w valid) settled
    ∙ same
