-- ===== src/Schedule/Single.antt =====
-- One pending refresh per key.
use proofrail_evidence_api.Prelude.{
  ℕ, String, ◌<◌, ◌+◌, Bool, true, false, not, ◌&&◌, Option, none, some, List, [], ◌∷◌, ◌++◌, ◌≡◌,
  refl, sym, ap, ◌∙◌, arith, eq_refl, if◌then◌else◌, All, All-filter_test, ◌==◌,
}
use proofrail_evidence_api.Table.{
  update_where, delete_where, count_where, count_where_none, All-update_where,
}
use proofrail_evidence_api.Jobs.{
  done, queued, Job, Jobs, Payload, has_key, is_pending, enqueue_job, delete_pending_jobs,
  mark_job_success,
}
use proofrail_evidence_api.Worker.{
  Env, WorkerState, artifact, reschedule, process_refresh, refresh_key,
}
use proofrail_evidence_api.Schedule.{replace_refresh, stop_schedule, ingest_key, refresh_payload}

-- a refresh of the key that is still to run
abbrev pub pending_refresh : String → Job → Bool
pending_refresh key j = has_key "ingest_refresh" key j && is_pending j.status

abbrev pub refreshes_pending : String → Jobs → ℕ
refreshes_pending key t = count_where (pending_refresh key) t.rows

none_after_delete :
    (key : String) (t : Jobs)
    → All (λ j. pending_refresh key j ≡ false) (delete_pending_jobs "ingest_refresh" key t).1.rows
unfolding delete_pending_jobs delete_where
none_after_delete key t =
    All-filter_test (λ j. pending_refresh key j ≡ false) (λ j. not (pending_refresh key j))
      (λ j e. ground (arith, e)) t.rows

-- a new refresh at the end of rows without one, with any UPDATE to `done` of another row
count_one :
    (key : String) (j : Job) (rows : List Job)
    → All (λ i. pending_refresh key i ≡ false) rows
    → pending_refresh key j ≡ true
    → count_where (pending_refresh key) (rows ++ j ∷ []) ≡ 1
unfolding count_where
count_one key j [] h e = ground (arith, e)
count_one key j (i ∷ rows) h e = ground (arith, h.0, e, count_one key j rows h.1 e)

update_where-append :
    (p : Job → Bool) (f : Job → Job) (xs ys : List Job)
    → update_where p f (xs ++ ys) ≡ update_where p f xs ++ update_where p f ys
unfolding update_where
update_where-append p f [] ys = refl
update_where-append p f (x ∷ xs) ys =
    ap (λ zs. (if p x then f x else x) ∷ zs) (update_where-append p f xs ys)

abbrev refresh_row : String → Option ℕ → Option ℕ → ℕ → ℕ → ℕ → Job
refresh_row key retrieval_ts interval_s run_at now id = record {
  job_id = id;
  job_type = "ingest_refresh";
  job_key = some key;
  payload_json = some (refresh_payload key retrieval_ts interval_s);
  status = queued;
  attempt_count = 0;
  run_at = run_at;
  last_error = none;
  created_at = now;
  updated_at = now;
  locked_until = none;
}

row_is_pending :
    (key : String) (retrieval_ts interval_s : Option ℕ) (run_at now id : ℕ)
    → pending_refresh key (refresh_row key retrieval_ts interval_s run_at now id) ≡ true
row_is_pending key retrieval_ts interval_s run_at now id = ground (arith, eq_refl key)

-- Asking for a refresh, once or on a schedule, leaves exactly one pending refresh of the key.
pub replace_refresh_single :
    (key : String) (retrieval_ts interval_s : Option ℕ) (run_at now : ℕ) (t : Jobs)
    → refreshes_pending key (replace_refresh key retrieval_ts interval_s run_at now t).1 ≡ 1
unfolding replace_refresh enqueue_job
replace_refresh_single key retrieval_ts interval_s run_at now t =
    let deleted = (delete_pending_jobs "ingest_refresh" key t).1 in
    count_one key (refresh_row key retrieval_ts interval_s run_at now deleted.next_id) deleted.rows
      (none_after_delete key t)
      (row_is_pending key retrieval_ts interval_s run_at now deleted.next_id)

update_where_miss :
    (p : Job → Bool) (f : Job → Job) (j : Job) → p j ≡ false → update_where p f (j ∷ []) ≡ j ∷ []
unfolding update_where
update_where_miss p f j h = ground (arith, h)

new_id :
    (key : String) (t : Jobs) (id : ℕ)
    → id < t.next_id
    → ((delete_pending_jobs "ingest_refresh" key t).1.next_id == id) ≡ false
unfolding delete_pending_jobs
new_id key t id h = ground arith

-- the row of another job is done, and the refresh that was just enqueued is still there
done_leaves_one :
    (key : String) (retrieval_ts interval_s : Option ℕ) (run_at now id : ℕ) (t : Jobs)
    → id < t.next_id
    → refreshes_pending key
        (mark_job_success id now (replace_refresh key retrieval_ts interval_s run_at now t).1)
      ≡ 1
unfolding replace_refresh enqueue_job mark_job_success
done_leaves_one key retrieval_ts interval_s run_at now id t old =
    let deleted = (delete_pending_jobs "ingest_refresh" key t).1 in
    let row = refresh_row key retrieval_ts interval_s run_at now deleted.next_id in
    let hit = λ (j : Job). j.job_id == id in
    let mark = λ (j : Job). record j { status = done; updated_at = now } in
    ap (λ rows. count_where (pending_refresh key) rows)
      (update_where-append hit mark deleted.rows (row ∷ []))
    ∙ ap (λ rows. count_where (pending_refresh key) (update_where hit mark deleted.rows ++ rows))
        (update_where_miss hit mark row (new_id key t id old))
    ∙ count_one key row (update_where hit mark deleted.rows)
        (All-update_where (λ i. pending_refresh key i ≡ false) (λ i. pending_refresh key i ≡ false)
          hit mark (λ i e k. ground arith) (λ i e k. k) deleted.rows (none_after_delete key t))
        (row_is_pending key retrieval_ts interval_s run_at now deleted.next_id)

reschedule-replace_refresh :
    {A : Type 0} (env : Env A) (key : String) (interval_s wall : ℕ) (t : Jobs)
    → reschedule env key interval_s wall t
      ≡ (replace_refresh key none (some interval_s) (wall + interval_s) env.now t).1
unfolding reschedule replace_refresh
reschedule-replace_refresh env key interval_s wall t = refl

jobs-process_refresh :
    {A : Type 0} (env : Env A) (j : Job) (p : Payload) (w : WorkerState A) (a : A) (interval_s : ℕ)
    → env.ingest (refresh_key p j) p.retrieval_ts ≡ artifact a
    → p.interval_s ≡ some interval_s
    → (process_refresh env j p w).jobs
      ≡ mark_job_success j.job_id env.now
          (reschedule env (refresh_key p j) interval_s (env.wall j.job_id) w.jobs)
unfolding process_refresh
jobs-process_refresh env j p w a interval_s fetched scheduled = ground (arith, fetched, scheduled)

-- When a scheduled refresh, whose job is an old row of the queue, has run well, exactly one
-- refresh of its key is pending: the next one.
pub process_refresh_single :
    {A : Type 0} (env : Env A) (j : Job) (p : Payload) (w : WorkerState A) (a : A) (interval_s : ℕ)
    → env.ingest (refresh_key p j) p.retrieval_ts ≡ artifact a
    → p.interval_s ≡ some interval_s
    → j.job_id < w.jobs.next_id
    → refreshes_pending (refresh_key p j) (process_refresh env j p w).jobs ≡ 1
process_refresh_single env j p w a interval_s fetched scheduled old =
    let key = refresh_key p j in
    let wall = env.wall j.job_id in
    ap (refreshes_pending key) (jobs-process_refresh env j p w a interval_s fetched scheduled)
    ∙ ap (λ t. refreshes_pending key (mark_job_success j.job_id env.now t))
        (reschedule-replace_refresh env key interval_s wall w.jobs)
    ∙ done_leaves_one key none (some interval_s) (wall + interval_s) env.now j.job_id w.jobs old

count_of_delete :
    (key : String) (t : Jobs)
    → (delete_pending_jobs "ingest_refresh" key t).0 ≡ refreshes_pending key t
unfolding delete_pending_jobs
count_of_delete key t = refl

-- Stopping a schedule leaves no pending refresh of the key, and reports how many there were.
pub stop_schedule_lem :
    (customer_id : Option String) (t t' : Jobs) (deleted : ℕ)
    → stop_schedule true customer_id t ≡ some (deleted, t')
    → (refreshes_pending (ingest_key customer_id) t' ≡ 0)
      × (deleted ≡ refreshes_pending (ingest_key customer_id) t)
unfolding stop_schedule
stop_schedule_lem customer_id t t' deleted h =
    let key = ingest_key customer_id in
    let same : delete_pending_jobs "ingest_refresh" key t ≡ (deleted, t') = ground (arith, h) in
    (
      ap (λ r. refreshes_pending key r.1) (sym same)
          ∙ count_where_none (pending_refresh key)
              (delete_pending_jobs "ingest_refresh" key t).1.rows (none_after_delete key t),
      ap (λ r. r.0) (sym same) ∙ count_of_delete key t,
    )
