-- ===== src/Jobs.antt =====
-- The job queue: table `jobs` of ProofRail/service/db.py. Timestamps are whole seconds: every one
-- that the code writes is a UTC time of one fixed-width format, whose text order is the order in
-- time. `payload_json` holds the object that `json.dumps` wrote, or `none` for a text that does not
-- parse.
pub mod Rows
pub mod Leases
pub mod Finished
mod Tests
use proofrail_evidence_api.Prelude.{
  ℕ, suc, ◌+◌, ◌-◌, String, Bool, true, false, not, ◌&&◌, ◌||◌, Option, none, some, List, [], ◌∷◌,
  ◌++◌, map, take, filter, length, any, ltb, leb, ◌==◌, str_eq, if◌then◌else◌, is_none,
}
use proofrail_evidence_api.Table.{update_where, delete_where, count_where, order_by, clamp_limit}

pub data JobStatus : Type 0 where
  queued retry done failed : JobStatus

abbrev pub status_eq : JobStatus → JobStatus → Bool
status_eq queued queued = true
status_eq retry retry = true
status_eq done done = true
status_eq failed failed = true
status_eq _ _ = false

-- `status IN ('queued','retry')`
abbrev pub is_pending : JobStatus → Bool
is_pending queued = true
is_pending retry = true
is_pending _ = false

-- the keys that the worker reads of a payload
pub record Payload : Type 0 where
  pub key : Option String
  pub retrieval_ts : Option ℕ
  pub interval_s : Option ℕ
  pub delivery_id : Option ℕ

pub record Job : Type 0 where
  pub job_id : ℕ
  pub job_type : String
  pub job_key : Option String
  pub payload_json : Option Payload
  pub status : JobStatus
  pub attempt_count : ℕ
  pub run_at : ℕ
  pub last_error : Option String
  pub created_at : ℕ
  pub updated_at : ℕ
  pub locked_until : Option ℕ

-- `next_id` is the AUTOINCREMENT counter
pub record Jobs : Type 0 where
  pub rows : List Job
  pub next_id : ℕ

abbrev pub no_jobs : Jobs
no_jobs = record { rows = []; next_id = 1 }

-- `job_key = ?`, which no row with NULL passes
abbrev pub has_key : String → String → Job → Bool
has_key type key j =
    str_eq j.job_type type && (elim j.job_key [ none ↦ false | some k ↦ str_eq k key ])

-- `enqueue_job`, with the new row's id
unfoldable pub enqueue_job : String → Option String → Option Payload → ℕ → ℕ → Jobs → ℕ × Jobs
enqueue_job job_type job_key payload_json run_at now t = (
  t.next_id,
  record {
    rows =
        t.rows
        ++ record {
          job_id = t.next_id;
          job_type = job_type;
          job_key = job_key;
          payload_json = payload_json;
          status = queued;
          attempt_count = 0;
          run_at = run_at;
          last_error = none;
          created_at = now;
          updated_at = now;
          locked_until = none;
        }
          ∷ [];
    next_id = suc t.next_id;
  },
)

-- `locked_until IS NULL OR locked_until <= now`
abbrev pub is_unlocked : ℕ → Job → Bool
is_unlocked now j = elim j.locked_until [ none ↦ true | some l ↦ leb l now ]

-- the WHERE of `claim_due_jobs`
unfoldable pub is_due : ℕ → Job → Bool
is_due now j = is_pending j.status && (leb j.run_at now && is_unlocked now j)

abbrev pub by_run_at : Job → Job → Bool
by_run_at a b = leb a.run_at b.run_at

-- `job_id IN (…)`
abbrev pub is_among : List Job → Job → Bool
is_among js j = any (λ i. i.job_id == j.job_id) js

-- the SELECT of `claim_due_jobs`
unfoldable pub select_due : ℕ → ℕ → Jobs → List Job
select_due now limit t =
    take (clamp_limit 500 limit) (order_by by_run_at (filter (is_due now) t.rows))

-- `claim_due_jobs`: the rows as they were read, and the table with the leases written
unfoldable pub claim_due_jobs : ℕ → ℕ → ℕ → Jobs → List Job × Jobs
claim_due_jobs now locked_until limit t =
    let claimed = select_due now limit t in
    (
      claimed,
      record t {
        rows =
            update_where (is_among claimed)
              (λ j. record j { locked_until = some locked_until; updated_at = now }) t.rows;
      },
    )

-- `delete_pending_jobs`, with its rowcount
unfoldable pub delete_pending_jobs : String → String → Jobs → ℕ × Jobs
delete_pending_jobs job_type job_key t =
    let hit = λ (j : Job). has_key job_type job_key j && is_pending j.status in
    (count_where hit t.rows, record t { rows = delete_where hit t.rows })

-- `job_counts_by_status`: a status with no row has no entry
unfoldable pub job_counts_by_status : Jobs → JobStatus → Option ℕ
job_counts_by_status t st =
    let n = count_where (λ (j : Job). status_eq j.status st) t.rows in
    if n == 0 then none else some n

-- `job_locked_count`
unfoldable pub job_locked_count : ℕ → Jobs → ℕ
job_locked_count now t =
    count_where (λ (j : Job). elim j.locked_until [ none ↦ false | some l ↦ ltb now l ]) t.rows

-- the pending job that comes first: SELECT MIN(run_at), and `get_oldest_pending_job`
unfoldable pub get_oldest_pending_job : Jobs → Option Job
get_oldest_pending_job t = elim (order_by by_run_at (filter (λ j. is_pending j.status) t.rows)) [
  | [] ↦ none
  | j ∷ _ ↦ some j
]

-- `job_lag_seconds`: `max(0, lag)` is what `-` stops at
unfoldable pub job_lag_seconds : ℕ → Jobs → ℕ
job_lag_seconds now t = elim (get_oldest_pending_job t) [ none ↦ 0 | some j ↦ now - j.run_at ]

-- the lease of a pending job that has run out
unfoldable pub is_stale : ℕ → Job → Bool
is_stale now j = is_pending j.status && (elim j.locked_until [ none ↦ false | some l ↦ ltb l now ])

-- `count_stale_job_leases`
unfoldable pub count_stale_job_leases : ℕ → Jobs → ℕ
count_stale_job_leases now t = count_where (is_stale now) t.rows

-- `release_expired_job_leases`, with its rowcount
unfoldable pub release_expired_job_leases : ℕ → Jobs → ℕ × Jobs
release_expired_job_leases now t = (
  count_where (is_stale now) t.rows,
  record t {
    rows =
        update_where (is_stale now) (λ j. record j { locked_until = none; updated_at = now })
          t.rows;
  },
)

-- the latest first
abbrev pub by_updated_at : Job → Job → Bool
by_updated_at a b =
    ltb b.updated_at a.updated_at || (b.updated_at == a.updated_at && leb b.job_id a.job_id)

-- `list_failed_jobs`, from behind the cursor (updated_at, job_id) if there is one
unfoldable pub list_failed_jobs : ℕ → Option (ℕ × ℕ) → Jobs → List Job
list_failed_jobs limit cursor t = take (clamp_limit 500 limit) (
    order_by by_updated_at (
      filter
        (λ j. status_eq j.status failed && (elim cursor [
          | none ↦ true
          | some (at, id) ↦ ltb j.updated_at at || (j.updated_at == at && ltb j.job_id id)
        ]))
        t.rows))

-- `delete_jobs_before`, with its rowcount; no status, no work
unfoldable pub delete_jobs_before : ℕ → List JobStatus → Jobs → ℕ × Jobs
delete_jobs_before cutoff statuses t =
    let hit = λ (j : Job). ltb j.updated_at cutoff && any (status_eq j.status) statuses in
    (count_where hit t.rows, record t { rows = delete_where hit t.rows })

abbrev pub set_job : ℕ → (Job → Job) → Jobs → Jobs
set_job job_id f t = record t { rows = update_where (λ j. j.job_id == job_id) f t.rows }

-- `mark_job_success`
unfoldable pub mark_job_success : ℕ → ℕ → Jobs → Jobs
mark_job_success job_id now = set_job job_id (λ j. record j { status = done; updated_at = now })

-- `mark_job_retry`: the lease stays
unfoldable pub mark_job_retry : ℕ → ℕ → ℕ → Option String → Jobs → Jobs
mark_job_retry job_id now run_at error = set_job job_id (λ j. record j {
  status = retry;
  attempt_count = j.attempt_count + 1;
  run_at = run_at;
  last_error = error;
  updated_at = now;
})

-- `mark_job_failed`
unfoldable pub mark_job_failed : ℕ → ℕ → Option String → Jobs → Jobs
mark_job_failed job_id now error =
    set_job job_id (λ j. record j { status = failed; last_error = error; updated_at = now })
