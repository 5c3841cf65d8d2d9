-- ===== src/Webhooks/Dispatch/Reach.antt =====
-- Every subscription that wants an event gets a delivery of it, with a job that is due.
use proofrail_evidence_api.Prelude.{
  ℕ, Option, none, some, ◌==◌, some, Option, Option-cases, ap, ◌∙◌, eq_iff, eq_refl, show, inl, inr,
  ℕ, ◌≡◌, refl, ap, ◌∙◌, String, Bool, true, false, not, ◌&&◌, ◌||◌, List, [], ◌∷◌, ◌++◌, arith,
  any, filter, str_eq, eq_iff, eq_refl, show, Bool-cases, inl, inr,
}
use proofrail_evidence_api.Jobs.{
  Payload, is_due, Job, Jobs, enqueue_job, delete_pending_jobs, has_key, is_pending,
}
use proofrail_evidence_api.Table.{delete_where}
use proofrail_evidence_api.Webhooks.Dispatch.{dispatch_job}

-- the payload names the delivery
abbrev pub names_delivery : ℕ → Option Payload → Bool
names_delivery delivery_id none = false
names_delivery delivery_id (some payload) = elim payload.delivery_id [
  | none ↦ false
  | some id ↦ id == delivery_id
]

-- a job that a claim finds due and whose payload names the delivery
abbrev pub is_job_for : ℕ → ℕ → Job → Bool
is_job_for delivery_id now j =
    has_key "webhook_delivery" (show delivery_id) j
    && (is_due now j && names_delivery delivery_id j.payload_json)

unfoldable pub has_due_job : ℕ → ℕ → Jobs → Bool
has_due_job delivery_id now jobs = any (is_job_for delivery_id now) jobs.rows

module _ {A : Type 0} (p : A → Bool) where
  any-append : (xs ys : List A) → any p (xs ++ ys) ≡ (any p xs || any p ys)
  any-append [] ys = refl
  any-append (x ∷ xs) ys = ground (arith, any-append xs ys)

  -- a filter that keeps what passes the test
  any-filter :
      (q : A → Bool) (xs : List A)
      → ((x : A) → p x ≡ true → q x ≡ true)
      → any p xs ≡ true
      → any p (filter q xs) ≡ true
  any-filter q [] keeps h = h
  any-filter q (x ∷ xs) keeps h = elim (Bool-cases (p x)) [
    | inl e ↦ rw (keeps x e, e) refl
    | inr e ↦ elim (Bool-cases (q x)) [
      | inl k ↦ rw (k, e) (any-filter q xs keeps (ground (arith, h, e)))
      | inr k ↦ rw k (any-filter q xs keeps (ground (arith, h, e)))
    ]
  ]

-- a job has one key
other_key :
    (a b : String) (j : Job)
    → str_eq a b ≡ false
    → has_key "webhook_delivery" a j ≡ true
    → has_key "webhook_delivery" b j ≡ false
other_key a b j apart h = elim (Option-cases j.job_key) [
  | inl e ↦ absurd (ground (arith, h, e))
  | inr (k, e) ↦
      let same : k ≡ a = (eq_iff k a).0 (ground (arith, h, e)) in
      let other : str_eq k b ≡ false = ap (λ t. str_eq t b) same ∙ apart in ground (arith, e, other)
]

pub dispatch_job_due :
    (delivery_id now : ℕ) (jobs : Jobs)
    → has_due_job delivery_id now (dispatch_job delivery_id now jobs) ≡ true
unfolding has_due_job dispatch_job enqueue_job is_due
dispatch_job_due delivery_id now jobs =
    any-append (is_job_for delivery_id now)
      (delete_pending_jobs "webhook_delivery" (show delivery_id) jobs).1.rows _
    ∙ ground (arith, eq_refl (show delivery_id))

-- the job of another delivery stays
pub dispatch_job_keeps :
    (m delivery_id now : ℕ) (jobs : Jobs)
    → str_eq (show m) (show delivery_id) ≡ false
    → has_due_job m now jobs ≡ true
    → has_due_job m now (dispatch_job delivery_id now jobs) ≡ true
unfolding has_due_job dispatch_job enqueue_job delete_pending_jobs delete_where
dispatch_job_keeps m delivery_id now jobs apart h =
    let hit = λ (j : Job). has_key "webhook_delivery" (show delivery_id) j && is_pending j.status in
    let kept =
      any-filter (is_job_for m now) (λ j. not (hit j)) jobs.rows
        (λ j e. ground (arith, other_key (show m) (show delivery_id) j apart, e)) h in
    any-append (is_job_for m now) (filter (λ j. not (hit j)) jobs.rows) _ ∙ ground (arith, kept)
