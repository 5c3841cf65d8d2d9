-- ===== src/Worker/Untouched.antt =====
-- What a tick does to the deliveries: closed ones stay as they are, and the failures of one are
-- bounded.
use mathlib.Core.Path.{subst}
use proofrail_evidence_api.Prelude.{
  ◌+◌, refl, leb, ◌⊎◌, ℕ, ◌≤◌, ◌<◌, ◌≡◌, sym, ap, ◌∙◌, true, false, Option, none, some, List, [],
  ◌∷◌, arith, ◌==◌, ==_iff, ltb, str_eq, Bool-cases, Option-cases, inl, inr,
}
use proofrail_evidence_api.Jobs.{Job, Payload}
use proofrail_evidence_api.Webhooks.{
  Delivery, Subscription, get_webhook_delivery, get_webhook_subscription, is_open,
}
use proofrail_evidence_api.Webhooks.Attempts.{get_webhook_delivery_id, updated_hit, updated_miss}
use proofrail_evidence_api.Worker.{
  Env, WorkerState, attempt_delivery, process_delivery, process_refresh, process_payload,
  process_job, process_all, process_once, run,
}
use proofrail_evidence_api.Worker.Attempts.{
  missing_row, result_row, attempt_row, get-attempt_delivery,
}

module _ {A : Type 0} (env : Env A) where
  -- A job changes what is read at a delivery id only by an attempt at that delivery, open and due,
  -- which the job's payload names.
  pub data Touched (j : Job) (w : WorkerState A) (e : ℕ) : Type 0 where
    untouched :
        get_webhook_delivery e (process_job env j w).deliveries
          ≡ get_webhook_delivery e w.deliveries
        → Touched j w e
    attempted :
        (p : Payload) (d : Delivery)
        → j.payload_json ≡ some p
        → p.delivery_id ≡ some e
        → get_webhook_delivery e w.deliveries ≡ some d
        → is_open d.status ≡ true
        → d.next_attempt_at ≤ env.now
        → get_webhook_delivery e (process_job env j w).deliveries
          ≡ some (attempt_row env d (get_webhook_subscription d.subscription_id w.subs) d)
        → Touched j w e

  deliveries-process_refresh :
      (j : Job) (p : Payload) (w : WorkerState A)
      → (process_refresh env j p w).deliveries ≡ w.deliveries
  unfolding process_refresh
  deliveries-process_refresh j p w = ground arith

  deliveries-process_delivery :
      (j : Job) (id : ℕ) (w : WorkerState A)
      → ((process_delivery env j id w).deliveries ≡ w.deliveries)
        ⊎ ((d : Delivery) × (get_webhook_delivery id w.deliveries ≡ some d)
            × (is_open d.status ≡ true)
            × (d.next_attempt_at ≤ env.now)
            × ((process_delivery env j id w).deliveries ≡ attempt_delivery env d w))
  unfolding process_delivery
  deliveries-process_delivery j id w = elim (Option-cases (get_webhook_delivery id w.deliveries)) [
    | inl gone ↦ inl (rw (gone, process_delivery))
    | inr (d, found) ↦ elim (Bool-cases (is_open d.status)) [
      | inr closed ↦ inl (ground arith)
      | inl open_ ↦ elim (Bool-cases (ltb env.now d.next_attempt_at)) [
        | inl early ↦ inl (ground arith)
        | inr due ↦ inr (d, found, open_, ground arith, ground arith)
      ]
    ]
  ]

  process_delivery-Touched :
      (j : Job) (p : Payload) (w : WorkerState A) (id e : ℕ)
      → j.payload_json ≡ some p
      → p.delivery_id ≡ some id
      → process_job env j w ≡ process_delivery env j id w
      → Touched j w e
  process_delivery-Touched j p w id e loaded asks runs = elim (deliveries-process_delivery j id w) [
    | inl same ↦ untouched (
        ap (λ (v : WorkerState A). get_webhook_delivery e v.deliveries) runs
        ∙ ap (get_webhook_delivery e) same)
    | inr (d, found, open_, due, tried) ↦
        let own : d.delivery_id ≡ id = get_webhook_delivery_id id w.deliveries d found in
        let read =
          ap (λ (v : WorkerState A). get_webhook_delivery e v.deliveries) runs
          ∙ ap (get_webhook_delivery e) tried
          ∙ get-attempt_delivery env d w e in
        elim (Bool-cases (e == d.delivery_id)) [
          | inl mine ↦
              let here : id ≡ e = sym own ∙ sym ((==_iff e d.delivery_id).0 mine) in
              attempted p d loaded (asks ∙ ap some here) (rw here at found) open_ due
                (read ∙ updated_hit (e == d.delivery_id) _ _ d mine (rw here at found))
          | inr other ↦ untouched (read ∙ updated_miss (e == d.delivery_id) _ _ other)
        ]
  ]

  pub process_job-Touched : (j : Job) (w : WorkerState A) (e : ℕ) → Touched j w e
  unfolding process_job process_payload
  process_job-Touched j w e = elim (Option-cases j.payload_json) [
    | inl bad ↦ untouched (ground arith)
    | inr (p, loaded) ↦ elim (Bool-cases (str_eq j.job_type "ingest_refresh")) [
      | inl refresh ↦ untouched (ground (arith, deliveries-process_refresh j p w))
      | inr not_refresh ↦ elim (Bool-cases (str_eq j.job_type "webhook_delivery")) [
        | inr unknown ↦ untouched (ground arith)
        | inl webhook ↦ elim (Option-cases p.delivery_id) [
          | inl no_id ↦ untouched (ground arith)
          | inr (id, asks) ↦ process_delivery-Touched j p w id e loaded asks (ground arith)
        ]
      ]
    ]
  ]

  -- a property of what is read at one id, kept by every attempt at an open delivery
  module _ (e : ℕ) (P : Option Delivery → Type 0) where
    Kept : Type 0
    Kept =
        (d : Delivery) (s : Option Subscription)
        → is_open d.status ≡ true
        → P (some d)
        → P (some (attempt_row env d s d))

    process_job-keeps :
        (j : Job) (w : WorkerState A)
        → Kept
        → P (get_webhook_delivery e w.deliveries)
        → P (get_webhook_delivery e (process_job env j w).deliveries)
    unfolding Kept
    process_job-keeps j w keep h = elim (process_job-Touched j w e) [
      | untouched same ↦ rw same h
      | attempted p d loaded asks found open_ due read ↦ rw read (keep d _ open_ (rw found at h))
    ]

    process_all-keeps :
        (js : List Job) (w : WorkerState A)
        → Kept
        → P (get_webhook_delivery e w.deliveries)
        → P (get_webhook_delivery e (process_all env js w).deliveries)
    unfolding process_all
    process_all-keeps [] w keep h = h
    process_all-keeps (j ∷ js) w keep h =
        process_all-keeps js (process_job env j w) keep (process_job-keeps j w keep h)

    process_once-keeps :
        (w : WorkerState A)
        → Kept
        → P (get_webhook_delivery e w.deliveries)
        → P (get_webhook_delivery e (process_once env w).deliveries)
    unfolding process_once
    process_once-keeps w keep h = process_all-keeps _ _ keep h

-- A delivery that is delivered or failed stays as it is, whatever jobs there are and for any
-- number of ticks of the worker.
pub closed_delivery_stays :
    {A : Type 0} (envs : List (Env A)) (w : WorkerState A) (e : ℕ) (d : Delivery)
    → get_webhook_delivery e w.deliveries ≡ some d
    → is_open d.status ≡ false
    → get_webhook_delivery e (run envs w).deliveries ≡ some d
unfolding run
closed_delivery_stays [] w e d found closed = found
closed_delivery_stays (env ∷ envs) w e d found closed =
    closed_delivery_stays envs (process_once env w) e d
      (process_once-keeps env e (λ o. o ≡ some d) w
        (unfold Kept in λ x s open_ same. absurd (ground arith)) found)
      closed

-- what a delivery's failures are bounded by
abbrev pub FailuresBelow : ℕ → Option Delivery → Type 0
FailuresBelow max none = Unit
FailuresBelow max (some d) = d.attempt_count < max

attempt_row-FailuresBelow :
    {A : Type 0} (env : Env A) (d : Delivery) (s : Option Subscription)
    → d.attempt_count < env.webhook_max_attempts
    → (attempt_row env d s d).attempt_count < env.webhook_max_attempts
unfolding attempt_row
attempt_row-FailuresBelow env d s h = ground arith

-- all ticks with one configuration
abbrev pub Configured : {A : Type 0} → ℕ → List (Env A) → Type 0
Configured max [] = Unit
Configured max (env ∷ envs) = (env.webhook_max_attempts ≡ max) × Configured max envs

-- a delivery with more failures than before, or one that is closed
abbrev pub Advanced : Delivery → Option Delivery → Type 0
Advanced d none = ⊥
Advanced d (some x) = (is_open x.status ≡ false) ⊎ (d.attempt_count < x.attempt_count)

attempt_row-Advanced :
    {A : Type 0} (env : Env A) (x : Delivery) (s : Option Subscription)
    → Advanced x (some (attempt_row env x s x))
unfolding attempt_row result_row missing_row
attempt_row-Advanced env x none = inl refl
attempt_row-Advanced env x (some sub) = elim (Bool-cases sub.active) [
  | inr e ↦ inl (ground (arith, e))
  | inl e ↦ elim (Bool-cases (env.deliver sub x).ok) [
    | inl sent ↦ inl (ground (arith, e, sent))
    | inr lost ↦ elim (Bool-cases (leb env.webhook_max_attempts (x.attempt_count + 1))) [
      | inl last ↦ inl (ground (arith, e, lost, last))
      | inr more ↦ inr (ground (arith, e, lost, more))
    ]
  ]
]

-- the failures are below the bound, and the delivery is as it was or it has advanced
abbrev pub Counted : ℕ → Delivery → Option Delivery → Type 0
Counted max d o = FailuresBelow max o × ((o ≡ some d) ⊎ Advanced d o)

attempt_row-Counted :
    {A : Type 0} (env : Env A) (d x : Delivery) (s : Option Subscription)
    → is_open x.status ≡ true
    → Counted env.webhook_max_attempts d (some x)
    → Counted env.webhook_max_attempts d (some (attempt_row env x s x))
attempt_row-Counted env d x s open_ (below, was) = (
  attempt_row-FailuresBelow env x s below,
  inr (elim (attempt_row-Advanced env x s) [
    | inl closed ↦ inl closed
    | inr more ↦ inr (elim was [
      | inl same ↦ omega (arith, more, ap failures same)
      | inr (inl closed) ↦ absurd (ground (arith, open_, closed))
      | inr (inr before) ↦ omega (arith, more, before)
    ])
  ]),
)
  where
    failures : Option Delivery → ℕ
    failures none = 0
    failures (some y) = y.attempt_count

run-Counted_step :
    {A : Type 0} (max : ℕ) (envs : List (Env A)) (w : WorkerState A) (e : ℕ) (d : Delivery)
    → Configured max envs
    → Counted max d (get_webhook_delivery e w.deliveries)
    → Counted max d (get_webhook_delivery e (run envs w).deliveries)
unfolding run
run-Counted_step max [] w e d c h = h
run-Counted_step max (env ∷ envs) w e d c h =
    run-Counted_step max envs (process_once env w) e d c.1 (
      process_once-keeps env e (Counted max d) w
        (unfold Kept in
          λ x s open_ counted. rw (← c.0) (attempt_row-Counted env d x s open_ (rw c.0 counted)))
        h)

-- A delivery with fewer failed attempts than `webhook_max_attempts` never reaches that number, through
-- any number of ticks of one configuration; and whenever its row has changed, it is closed or has more
-- failed attempts than before.
pub run-Counted :
    {A : Type 0} (max : ℕ) (envs : List (Env A)) (w : WorkerState A) (e : ℕ) (d : Delivery)
    → Configured max envs
    → get_webhook_delivery e w.deliveries ≡ some d
    → d.attempt_count < max
    → Counted max d (get_webhook_delivery e (run envs w).deliveries)
run-Counted max envs w e d c found below =
    run-Counted_step max envs w e d c (subst (Counted max d) (sym found) (below, inl refl))
