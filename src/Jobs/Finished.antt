-- ===== src/Jobs/Finished.antt =====
-- A finished job is not taken up again.
use proofrail_evidence_api.Jobs.Leases.{All-select_due}
use proofrail_evidence_api.Prelude.{
  any, ltb, ◌&&◌, ◌<◌, ℕ, ◌≡◌, ap, ◌∙◌, refl, Bool, false, List, [], ◌∷◌, ◌++◌, arith, filter, ◌==◌,
  All, Bool-cases, inl, inr,
}
use proofrail_evidence_api.Table.{update_where, delete_where}
use proofrail_evidence_api.Jobs.{
  status_eq, any, ltb, has_key, is_stale, mark_job_failed, mark_job_retry, mark_job_success,
  delete_jobs_before, release_expired_job_leases, delete_pending_jobs, select_due, enqueue_job,
  claim_due_jobs, Jobs, is_pending, Job, is_due, is_among,
}
use proofrail_evidence_api.Jobs.Rows.{
  run, apply, Op, enqueue, claim, delete_pending, release, delete_before, success, retry_at, fail,
}

-- the rows with this id
abbrev pub rows_of : ℕ → List Job → List Job
rows_of id rows = filter (λ (r : Job). r.job_id == id) rows

-- the operation marks another job, or none
abbrev pub Spares : ℕ → Op → Type 0
Spares id (enqueue type key payload run_at now) = Unit
Spares id (claim now locked_until limit) = Unit
Spares id (delete_pending type key) = Unit
Spares id (release now) = Unit
Spares id (delete_before cutoff statuses) = Unit
Spares id (success other now) = (id == other) ≡ false
Spares id (retry_at other now run_at error) = (id == other) ≡ false
Spares id (fail other now error) = (id == other) ≡ false

module _ (j : Job) where
  -- every row with the job's id is the job
  abbrev pub OnlyRow : List Job → Type 0
  OnlyRow rows = All (λ r. r ≡ j) (rows_of j.job_id rows)

  update-OnlyRow :
      (p : Job → Bool) (f : Job → Job) (rows : List Job)
      → p j ≡ false
      → ((r : Job) → (f r).job_id ≡ r.job_id)
      → OnlyRow rows
      → OnlyRow (update_where p f rows)
  unfolding update_where
  update-OnlyRow p f [] other same h = tt
  update-OnlyRow p f (r ∷ rows) other same h = elim (Bool-cases (r.job_id == j.job_id)) [
    | inl e ↦
        let (is, later) : (r ≡ j) × OnlyRow rows = rw e at h in
        let free : p r ≡ false = ap p is ∙ other in
        rw (free, e) (is, update-OnlyRow p f rows other same later)
    | inr e ↦
        let later : OnlyRow rows = rw e at h in
        let kept : ((f r).job_id == j.job_id) ≡ false = ap (λ n. n == j.job_id) (same r) ∙ e in
        elim (Bool-cases (p r)) [
          | inl hit ↦ rw (hit, kept) (update-OnlyRow p f rows other same later)
          | inr miss ↦ rw (miss, e) (update-OnlyRow p f rows other same later)
        ]
  ]

  delete-OnlyRow : (p : Job → Bool) (rows : List Job) → OnlyRow rows → OnlyRow (delete_where p rows)
  unfolding delete_where
  delete-OnlyRow p [] h = tt
  delete-OnlyRow p (r ∷ rows) h = elim (Bool-cases (r.job_id == j.job_id)) [
    | inl e ↦
        let (is, later) : (r ≡ j) × OnlyRow rows = rw e at h in
        elim (Bool-cases (p r)) [
          | inl hit ↦ rw hit (delete-OnlyRow p rows later)
          | inr miss ↦ rw (miss, e) (is, delete-OnlyRow p rows later)
        ]
    | inr e ↦
        let later : OnlyRow rows = rw e at h in
        elim (Bool-cases (p r)) [
          | inl hit ↦ rw hit (delete-OnlyRow p rows later)
          | inr miss ↦ rw (miss, e) (delete-OnlyRow p rows later)
        ]
  ]

  snoc-OnlyRow :
      (rows : List Job) (new : Job)
      → (new.job_id == j.job_id) ≡ false
      → OnlyRow rows
      → OnlyRow (rows ++ new ∷ [])
  snoc-OnlyRow [] new other h = rw other tt
  snoc-OnlyRow (r ∷ rows) new other h = elim (Bool-cases (r.job_id == j.job_id)) [
    | inl e ↦
        let (is, later) : (r ≡ j) × OnlyRow rows = rw e at h in
        rw e (is, snoc-OnlyRow rows new other later)
    | inr e ↦ let later : OnlyRow rows = rw e at h in rw e (snoc-OnlyRow rows new other later)
  ]

  -- no due row has the id of a job that is not due
  due_others :
      (now : ℕ) (rows : List Job)
      → is_due now j ≡ false
      → OnlyRow rows
      → All (λ (r : Job). (r.job_id == j.job_id) ≡ false) (filter (is_due now) rows)
  due_others now [] rest h = tt
  due_others now (r ∷ rows) rest h = elim (Bool-cases (r.job_id == j.job_id)) [
    | inl e ↦
        let (is, later) : (r ≡ j) × OnlyRow rows = rw e at h in
        let free : is_due now r ≡ false = ap (is_due now) is ∙ rest in
        rw free (due_others now rows rest later)
    | inr e ↦
        let later : OnlyRow rows = rw e at h in
        elim (Bool-cases (is_due now r)) [
          | inl hit ↦ rw hit (e, due_others now rows rest later)
          | inr miss ↦ rw miss (due_others now rows rest later)
        ]
  ]

  not_among :
      (claimed : List Job)
      → All (λ (r : Job). (r.job_id == j.job_id) ≡ false) claimed
      → is_among claimed j ≡ false
  not_among [] h = refl
  not_among (r ∷ rows) h = ground (arith, h.0, not_among rows h.1)

  -- the id was given, and only to the job
  abbrev pub Stays : Jobs → Type 0
  Stays t = (j.job_id < t.next_id) × OnlyRow t.rows

  module _ (finished : is_pending j.status ≡ false) where
    claim-Stays :
        (now until limit : ℕ) (t : Jobs) → Stays t → Stays (claim_due_jobs now until limit t).1
    unfolding claim_due_jobs is_due
    claim-Stays now until limit t (below, only) = (
      below,
      update-OnlyRow (is_among (select_due now limit t)) _ t.rows
          (not_among (select_due now limit t) (
            All-select_due (λ (r : Job). (r.job_id == j.job_id) ≡ false) now limit t
              (due_others now t.rows (ground (arith, finished)) only)))
          (λ r. refl) only,
    )

    set-Stays :
        (id : ℕ) (f : Job → Job) (t : Jobs)
        → (j.job_id == id) ≡ false
        → ((r : Job) → (f r).job_id ≡ r.job_id)
        → Stays t
        → Stays (record t { rows = update_where (λ r. r.job_id == id) f t.rows })
    set-Stays id f t other same (below, only) =
        (below, update-OnlyRow (λ r. r.job_id == id) f t.rows other same only)

    apply-Stays : (op : Op) (t : Jobs) → Spares j.job_id op → Stays t → Stays (apply op t)
    unfolding apply enqueue_job delete_pending_jobs release_expired_job_leases delete_jobs_before
        mark_job_success mark_job_retry mark_job_failed is_stale
    apply-Stays (enqueue type key payload run_at now) t spares (below, only) =
        (omega (arith, below), snoc-OnlyRow t.rows _ (ground (arith, below)) only)
    apply-Stays (claim now until limit) t spares h = claim-Stays now until limit t h
    apply-Stays (delete_pending type key) t spares (below, only) =
        (below, delete-OnlyRow (λ r. has_key type key r && is_pending r.status) t.rows only)
    apply-Stays (release now) t spares (below, only) =
        (below, update-OnlyRow (is_stale now) _ t.rows (ground (arith, finished)) (λ r. refl) only)
    apply-Stays (delete_before cutoff statuses) t spares (below, only) = (
      below,
      delete-OnlyRow (λ r. ltb r.updated_at cutoff && any (status_eq r.status) statuses) t.rows
          only,
    )
    apply-Stays (success id now) t spares h = set-Stays id _ t spares (λ r. refl) h
    apply-Stays (retry_at id now run_at error) t spares h = set-Stays id _ t spares (λ r. refl) h
    apply-Stays (fail id now error) t spares h = set-Stays id _ t spares (λ r. refl) h

    run-Stays : (ops : List Op) (t : Jobs) → All (Spares j.job_id) ops → Stays t → Stays (run ops t)
    unfolding run
    run-Stays [] t spares h = h
    run-Stays (op ∷ ops) t spares h =
        run-Stays ops (apply op t) spares.1 (apply-Stays op t spares.0 h)

-- A job that is done or failed, the only one with its id, is left as it was by any operations of the
-- queue none of which marks that very job: after them every row with its id is that job, which a
-- deletion of old jobs may have removed.
pub finished_job_stays :
    (ops : List Op) (t : Jobs) (j : Job)
    → is_pending j.status ≡ false
    → j.job_id < t.next_id
    → All (λ r. r ≡ j) (rows_of j.job_id t.rows)
    → All (Spares j.job_id) ops
    → All (λ r. r ≡ j) (rows_of j.job_id (run ops t).rows)
finished_job_stays ops t j finished below only spares =
    (run-Stays j finished ops t spares (below, only)).1
