-- ===== src/Jobs/Rows.antt =====
-- Job ids: AUTOINCREMENT keeps them distinct, growing in rowid order, and below the counter.
use proofrail_evidence_api.Prelude.{
  ℕ, suc, ◌≤◌, ◌<◌, String, ◌≡◌, refl, Bool, Option, List, [], ◌∷◌, arith, not, All, All-filter,
  All-append, All-imp,
}
use proofrail_evidence_api.Table.{
  update_where, delete_where, Increasing, Increasing-filter, Increasing-update_where,
  Increasing-snoc, All-update_where,
}
use proofrail_evidence_api.Jobs.{
  Job, Jobs, JobStatus, Payload, enqueue_job, claim_due_jobs, delete_pending_jobs,
  release_expired_job_leases, delete_jobs_before, mark_job_success, mark_job_retry, mark_job_failed,
  no_jobs,
}

pub record IsValid (t : Jobs) : Type 0 where
  pub distinct : Increasing (λ (j : Job). j.job_id) 1 t.rows
  pub below : All (λ j. j.job_id < t.next_id) t.rows
  pub counter : 1 ≤ t.next_id

module _ (t : Jobs) (h : IsValid t) where
  -- an UPDATE that leaves the ids alone
  update-IsValid :
      (p : Job → Bool) (f : Job → Job)
      → ((j : Job) → (f j).job_id ≡ j.job_id)
      → IsValid (record t { rows = update_where p f t.rows })
  update-IsValid p f same = record {
    distinct = Increasing-update_where (λ (j : Job). j.job_id) p f 1 t.rows same h.distinct;
    below =
        All-update_where (λ j. j.job_id < t.next_id) (λ j. j.job_id < t.next_id) p f
          (λ j _ k. omega (arith, same j)) (λ j _ k. k) t.rows h.below;
    counter = h.counter;
  }

  delete-IsValid : (p : Job → Bool) → IsValid (record t { rows = delete_where p t.rows })
  unfolding delete_where
  delete-IsValid p = record {
    distinct = Increasing-filter (λ (j : Job). j.job_id) (λ j. not (p j)) 1 t.rows h.distinct;
    below = All-filter (λ j. j.job_id < t.next_id) (λ j. not (p j)) t.rows h.below;
    counter = h.counter;
  }

  enqueue_job-IsValid :
      (type : String) (key : Option String) (payload : Option Payload) (run_at now : ℕ)
      → IsValid (enqueue_job type key payload run_at now t).1
  unfolding enqueue_job
  enqueue_job-IsValid type key payload run_at now = record {
    distinct = Increasing-snoc (λ (j : Job). j.job_id) _ 1 t.rows h.counter h.below h.distinct;
    below =
        All-append (λ j. j.job_id < suc t.next_id) t.rows _
          (All-imp (λ j k. omega arith) t.rows h.below) (omega arith, tt);
    counter = omega arith;
  }

-- Every operation of the queue.
pub data Op : Type 0 where
  enqueue : String → Option String → Option Payload → ℕ → ℕ → Op
  claim : ℕ → ℕ → ℕ → Op
  delete_pending : String → String → Op
  release : ℕ → Op
  delete_before : ℕ → List JobStatus → Op
  success : ℕ → ℕ → Op
  retry_at : ℕ → ℕ → ℕ → Option String → Op
  fail : ℕ → ℕ → Option String → Op

unfoldable pub apply : Op → Jobs → Jobs
apply (enqueue type key payload run_at now) t = (enqueue_job type key payload run_at now t).1
apply (claim now locked_until limit) t = (claim_due_jobs now locked_until limit t).1
apply (delete_pending type key) t = (delete_pending_jobs type key t).1
apply (release now) t = (release_expired_job_leases now t).1
apply (delete_before cutoff statuses) t = (delete_jobs_before cutoff statuses t).1
apply (success id now) t = mark_job_success id now t
apply (retry_at id now run_at error) t = mark_job_retry id now run_at error t
apply (fail id now error) t = mark_job_failed id now error t

pub apply-IsValid : (op : Op) (t : Jobs) → IsValid t → IsValid (apply op t)
unfolding apply claim_due_jobs delete_pending_jobs release_expired_job_leases delete_jobs_before
    mark_job_success mark_job_retry mark_job_failed
apply-IsValid (enqueue type key payload run_at now) t h =
    enqueue_job-IsValid t h type key payload run_at now
apply-IsValid (claim now locked_until limit) t h = update-IsValid t h _ _ (λ j. refl)
apply-IsValid (delete_pending type key) t h = delete-IsValid t h _
apply-IsValid (release now) t h = update-IsValid t h _ _ (λ j. refl)
apply-IsValid (delete_before cutoff statuses) t h = delete-IsValid t h _
apply-IsValid (success id now) t h = update-IsValid t h _ _ (λ j. refl)
apply-IsValid (retry_at id now run_at error) t h = update-IsValid t h _ _ (λ j. refl)
apply-IsValid (fail id now error) t h = update-IsValid t h _ _ (λ j. refl)

unfoldable pub run : List Op → Jobs → Jobs
run [] t = t
run (op ∷ ops) t = run ops (apply op t)

-- After any operations on a valid queue the job ids are distinct, grow in the order of insertion,
-- and stay below the next id to be given.
pub run-IsValid : (ops : List Op) (t : Jobs) → IsValid t → IsValid (run ops t)
unfolding run
run-IsValid [] t h = h
run-IsValid (op ∷ ops) t h = run-IsValid ops (apply op t) (apply-IsValid op t h)

pub no_jobs-IsValid : IsValid no_jobs
no_jobs-IsValid = record { distinct = tt; below = tt; counter = omega arith }
