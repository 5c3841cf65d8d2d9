-- ===== src/Webhooks/Dispatch/Sweep.antt =====
-- What `admin_run_webhook_deliveries` leaves in the queue.
use proofrail_evidence_api.Table.Selected.{selected-All, All-one}
use proofrail_evidence_api.Table.{clamp_limit}
use proofrail_evidence_api.Audit.{AuditEvent}
use proofrail_evidence_api.Webhooks.Dispatch.Reach.{
  dispatch_job_keeps, dispatch_job_due, has_due_job,
}
use proofrail_evidence_api.Webhooks.Dispatch.{
  dispatch_job, dispatch_all, admin_run_webhook_deliveries,
}
use proofrail_evidence_api.Jobs.{Jobs}
use proofrail_evidence_api.Prelude.{
  show-injective, inr, Any, ◌∙◌, ap, ◌≤◌, eq_iff, inl, filter, str_eq, length, Bool-cases, [], true,
  String, ◌∷◌, leb, Option, ◌&&◌, ◌≡◌, All, List, Bool, show, ℕ,
}
use proofrail_evidence_api.Webhooks.{Deliveries, is_open, list_due_webhook_deliveries, Delivery}

-- a delivery that can be attempted now
abbrev pub is_ready : ℕ → Delivery → Bool
is_ready now d = is_open d.status && leb d.next_attempt_at now

dispatch_job-either :
    (m n now : ℕ) (jobs : Jobs)
    → has_due_job m now jobs ≡ true
    → has_due_job m now (dispatch_job n now jobs) ≡ true
dispatch_job-either m n now jobs h = elim (Bool-cases (str_eq (show m) (show n))) [
  | inl e ↦
      let same : m ≡ n = show-injective m n ((eq_iff (show m) (show n)).0 e) in
      ap (λ k. has_due_job k now (dispatch_job n now jobs)) same ∙ dispatch_job_due n now jobs
  | inr e ↦ dispatch_job_keeps m n now jobs e h
]

abbrev Queued : ℕ → Jobs → Delivery → Type 0
Queued now jobs d = has_due_job d.delivery_id now jobs ≡ true

dispatch_all_keeps :
    (m now : ℕ) (ds : List Delivery) (jobs : Jobs)
    → has_due_job m now jobs ≡ true
    → has_due_job m now (dispatch_all now ds jobs) ≡ true
unfolding dispatch_all
dispatch_all_keeps m now [] jobs h = h
dispatch_all_keeps m now (d ∷ ds) jobs h =
    dispatch_all_keeps m now ds (dispatch_job d.delivery_id now jobs)
      (dispatch_job-either m d.delivery_id now jobs h)

dispatch_all-Queued :
    (now : ℕ) (ds : List Delivery) (jobs : Jobs) → All (Queued now (dispatch_all now ds jobs)) ds
unfolding dispatch_all
dispatch_all-Queued now [] jobs = tt
dispatch_all-Queued now (d ∷ ds) jobs = (
  dispatch_all_keeps d.delivery_id now ds (dispatch_job d.delivery_id now jobs)
      (dispatch_job_due d.delivery_id now jobs),
  dispatch_all-Queued now ds (dispatch_job d.delivery_id now jobs),
)

-- After the handler has run, every open delivery whose next attempt is due has a job that is due at
-- once and whose payload names that delivery, if there are no more of these deliveries than the limit,
-- which is cut to 1 to 500.
pub admin_run_webhook_deliveries-Queued :
    (now limit : ℕ) (request_id : Option String) (t : Deliveries) (jobs : Jobs)
    (audit : List AuditEvent) (d : Delivery)
    → length (filter (is_ready now) t.rows) ≤ clamp_limit 500 limit
    → Any (λ r. r ≡ d) t.rows
    → is_ready now d ≡ true
    → has_due_job d.delivery_id now
        (admin_run_webhook_deliveries now limit request_id t jobs audit).1.0
      ≡ true
unfolding admin_run_webhook_deliveries list_due_webhook_deliveries
admin_run_webhook_deliveries-Queued now limit request_id t jobs audit d few among ready =
    All-one _ d t.rows among
      (selected-All (Queued now _) (λ a b. leb a.next_attempt_at b.next_attempt_at) (is_ready now)
        (clamp_limit 500 limit) t.rows few (dispatch_all-Queued now _ jobs))
      ready
