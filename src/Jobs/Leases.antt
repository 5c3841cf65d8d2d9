-- ===== src/Jobs/Leases.antt =====
-- Leases: who may work on a job, and until when.
use mathlib.Core.Path.{subst}
use proofrail_evidence_api.Prelude.{
  Option, leb, Any, take_all, ==-refl, All-pure, All-filter_imp, ℕ, ◌≤◌, ◌<◌, ◌≡◌, refl, ◌∙◌, Bool,
  true, false, none, some, List, [], ◌∷◌, arith, filter, length, ◌==◌, All, All-filter_test,
  All-take, All-imp, Bool-cases, inl, inr, length-take,
}
use proofrail_evidence_api.Table.{
  update_where, order_by, count_where, clamp_limit, All-order_by, any-order_by, All-update_where,
  count_where_none, length-order_by,
}
use proofrail_evidence_api.Jobs.{
  Job, Jobs, is_due, is_stale, is_among, by_run_at, select_due, claim_due_jobs,
  release_expired_job_leases, count_stale_job_leases, is_pending,
}

-- what holds of every due row holds of every row that a claim selects
pub All-select_due :
    (P : Job → Type 0) (now limit : ℕ) (t : Jobs)
    → All P (filter (is_due now) t.rows)
    → All P (select_due now limit t)
unfolding select_due
All-select_due P now limit t h =
    All-take P (clamp_limit 500 limit) (order_by by_run_at (filter (is_due now) t.rows))
      (All-order_by by_run_at P (filter (is_due now) t.rows) h)

-- what a due job is
abbrev pub Due : ℕ → Job → Type 0
Due now j =
    (is_pending j.status ≡ true) × (j.run_at ≤ now) × ((l : ℕ) → j.locked_until ≡ some l → l ≤ now)

pub is_due-Due : (now : ℕ) (j : Job) → is_due now j ≡ true → Due now j
unfolding is_due
is_due-Due now j h = (ground arith, ground arith, λ l e. ground arith)

-- A claim takes pending jobs only, whose time has come and whose lease, if any, has run out; and it
-- takes at most `max(1, min(limit, 500))` of them.
pub claim_due_jobs_sound :
    (now until limit : ℕ) (t : Jobs)
    → All (Due now) (claim_due_jobs now until limit t).0
      × (length (claim_due_jobs now until limit t).0 ≤ clamp_limit 500 limit)
unfolding claim_due_jobs select_due
claim_due_jobs_sound now until limit t = (
  All-select_due (Due now) now limit t
      (All-filter_test (Due now) (is_due now) (is_due-Due now) t.rows),
  omega (
    arith,
    length-take (clamp_limit 500 limit) (order_by by_run_at (filter (is_due now) t.rows)),
  ),
)

-- a row that a claim has leased is not due before the lease ends
leased_not_due :
    (until now' : ℕ) (claimed rows : List Job) (now : ℕ)
    → now' < until
    → All
        (λ j. is_due now' j ≡ true → is_among claimed j ≡ false)
        (update_where
          (is_among claimed)
          (λ j. record j { locked_until = some until; updated_at = now })
          rows)
unfolding is_due
leased_not_due until now' claimed rows now h =
    All-update_where (λ _. Unit) (λ j. is_due now' j ≡ true → is_among claimed j ≡ false)
      (is_among claimed) _ (λ j _ _ due. absurd (ground arith)) (λ j free _ _. free) rows
      (All-pure (λ _. Unit) (λ _. tt) rows)

-- Until its lease ends, a claimed job is not claimed again from the table that the claim has left.
pub claims_exclusive :
    (now until limit now' until' limit' : ℕ) (t : Jobs)
    → now' < until
    → All
        (λ j. is_among (claim_due_jobs now until limit t).0 j ≡ false)
        (claim_due_jobs now' until' limit' (claim_due_jobs now until limit t).1).0
unfolding claim_due_jobs
claims_exclusive now until limit now' until' limit' t h =
    let claimed = select_due now limit t in
    All-select_due (λ j. is_among claimed j ≡ false) now' limit' _
      (All-filter_imp (λ j. is_among claimed j ≡ false) (is_due now') _
        (leased_not_due until now' claimed t.rows now h))

is_among-cons :
    (i : Job) (js : List Job) (j : Job) → is_among js j ≡ true → is_among (i ∷ js) j ≡ true
is_among-cons i js j h = ground arith

-- every row that passes is among those that a filter keeps
filter-is_among :
    (p : Job → Bool) (js : List Job) → All (λ j. p j ≡ true → is_among (filter p js) j ≡ true) js
filter-is_among p [] = tt
filter-is_among p (i ∷ js) = elim (Bool-cases (p i)) [
  | inl e ↦ (
    λ _. rw e (rw ==-refl),
    All-imp (λ j h k. rw e (is_among-cons i (filter p js) j (h k))) js (filter-is_among p js),
  )
  | inr e ↦ (λ k. absurd (ground arith), All-imp (λ j h k. rw e (h k)) js (filter-is_among p js))
]

-- every due row is claimed, if the due rows are no more than the limit
All-due_claimed :
    (now until limit : ℕ) (t : Jobs)
    → count_where (is_due now) t.rows ≤ clamp_limit 500 limit
    → All (λ j. is_due now j ≡ true → is_among (claim_due_jobs now until limit t).0 j ≡ true) t.rows
unfolding claim_due_jobs select_due count_where
All-due_claimed now until limit t h =
    let due = filter (is_due now) t.rows in
    let whole =
      take_all (clamp_limit 500 limit) (order_by by_run_at due)
        (omega (arith, length-order_by by_run_at due)) in
    All-imp (λ j mine k. rw whole (any-order_by by_run_at (λ i. i.job_id == j.job_id) due ∙ mine k))
      t.rows (filter-is_among (is_due now) t.rows)

-- no lease, or one that has run out
abbrev pub Over : ℕ → Option ℕ → Type 0
Over now none = Unit
Over now (some until) = until ≤ now

is_due-Over :
    (now : ℕ) (j : Job)
    → is_pending j.status ≡ true
    → j.run_at ≤ now
    → Over now j.locked_until
    → is_due now j ≡ true
unfolding is_due
is_due-Over now j pending time over = ground (arith, pending, time, unlocked j.locked_until over)
  where
    unlocked : (o : Option ℕ) → Over now o → (elim o [ none ↦ true | some l ↦ leb l now ]) ≡ true
    unlocked none h = refl
    unlocked (some until) h = ground (arith, h)

row_of : (P : Job → Type 0) (j : Job) (rows : List Job) → Any (λ r. r ≡ j) rows → All P rows → P j
row_of P j [] found all = absurd found
row_of P j (r ∷ rows) (inl same) all = subst P same all.0
row_of P j (r ∷ rows) (inr found) all = row_of P j rows found all.1

-- A claim forgets nothing: when the due jobs are no more than the limit, cut to 1 to 500, it takes
-- each queued or retried job whose time has come, if the job was never leased or its lease has run
-- out.
pub claim_due_jobs_complete :
    (now until limit : ℕ) (t : Jobs) (j : Job)
    → count_where (is_due now) t.rows ≤ clamp_limit 500 limit
    → Any (λ r. r ≡ j) t.rows
    → is_pending j.status ≡ true
    → j.run_at ≤ now
    → Over now j.locked_until
    → is_among (claim_due_jobs now until limit t).0 j ≡ true
claim_due_jobs_complete now until limit t j few found pending time over =
    row_of (λ r. is_due now r ≡ true → is_among (claim_due_jobs now until limit t).0 r ≡ true) j
      t.rows found (All-due_claimed now until limit t few) (is_due-Over now j pending time over)

freed :
    (j : Job) (now : ℕ) → is_stale now (record j { locked_until = none; updated_at = now }) ≡ false
unfolding is_stale
freed j now = ground arith

-- After `release_expired_job_leases` no pending job has a stale lease, and the count of what was
-- released is the count of stale leases before.
pub release_expired_job_leases_lem :
    (now : ℕ) (t : Jobs)
    → (count_stale_job_leases now (release_expired_job_leases now t).1 ≡ 0)
      × ((release_expired_job_leases now t).0 ≡ count_stale_job_leases now t)
unfolding release_expired_job_leases count_stale_job_leases
release_expired_job_leases_lem now t =
    let free = λ (j : Job). record j { locked_until = none; updated_at = now } in
    (
      count_where_none (is_stale now) (update_where (is_stale now) free t.rows) (
          All-update_where (λ _. Unit) (λ j. is_stale now j ≡ false) (is_stale now) free
            (λ j _ _. freed j now) (λ j fine _. fine) t.rows
            (All-pure (λ _. Unit) (λ _. tt) t.rows)),
      refl,
    )
