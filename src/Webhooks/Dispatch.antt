-- ===== src/Webhooks/Dispatch.antt =====
-- Sending an event to the subscriptions: `_emit_webhooks` and `admin_run_webhook_deliveries` of
-- ProofRail/service/app.py. One clock reading stands for those of a call; the payload that
-- `build_event_payload` writes is an argument.
pub mod Reach
pub mod Emit
pub mod Complete
pub mod Sweep
mod Tests
use proofrail_evidence_api.Prelude.{
  ℕ, String, Bool, false, true, ◌&&◌, ◌||◌, Option, none, some, List, [], ◌∷◌, length, any, str_eq,
  show, if◌then◌else◌,
}
use proofrail_evidence_api.Jobs.{Jobs, Payload, enqueue_job, delete_pending_jobs}
use proofrail_evidence_api.Audit.{AuditEvent, insert_audit_event, number}
use proofrail_evidence_api.Webhooks.{
  Subscription, Delivery, Deliveries, enqueue_webhook_delivery, list_due_webhook_deliveries,
}
use proofrail_evidence_api.Webhooks.Listing.{list_webhook_subscriptions}

pub record Outbox : Type 0 where
  pub subs : List Subscription
  pub deliveries : Deliveries
  pub jobs : Jobs

pub record Event : Type 0 where
  pub customer_id : String
  pub event_type : String
  pub event_id : String
  pub payload_json : String

abbrev pub delivery_job : ℕ → Payload
delivery_job delivery_id = record {
  key = none;
  retrieval_ts = none;
  interval_s = none;
  delivery_id = some delivery_id;
}

-- at most one pending job for the delivery
unfoldable pub dispatch_job : ℕ → ℕ → Jobs → Jobs
dispatch_job delivery_id now jobs =
    (enqueue_job "webhook_delivery" (some (show delivery_id)) (some (delivery_job delivery_id)) now
      now (delete_pending_jobs "webhook_delivery" (show delivery_id) jobs).1).1

-- the subscription is active and names the event type or `*`
unfoldable pub wants : String → Subscription → Bool
wants event_type s = s.active && (any (str_eq event_type) s.events || any (str_eq "*") s.events)

-- what the loop does for a subscription that wants the event; `none` is an exception
abbrev pub sent : Event → ℕ → Outbox → Option (ℕ × Deliveries) → Option Outbox
sent ev now o none = none
sent ev now o (some (delivery_id, t)) =
    some (record o { deliveries = t; jobs = dispatch_job delivery_id now o.jobs })

unfoldable pub send_to : Event → ℕ → Subscription → Outbox → Option Outbox
send_to ev now s o = sent ev now o (
    enqueue_webhook_delivery s.subscription_id ev.customer_id ev.event_type ev.event_id
      ev.payload_json now o.subs o.deliveries)

unfoldable pub emit_to : Event → ℕ → List Subscription → Outbox → Option Outbox
emit_to ev now [] o = some o
emit_to ev now (s ∷ ss) o =
    if wants ev.event_type s
    then (elim (send_to ev now s o) [ none ↦ none | some later ↦ emit_to ev now ss later ])
    else emit_to ev now ss o

-- `_emit_webhooks`: the listing has its default limit
unfoldable pub emit_webhooks : Event → ℕ → Outbox → Option Outbox
emit_webhooks ev now o =
    emit_to ev now (list_webhook_subscriptions ev.customer_id 200 none o.subs) o

unfoldable pub dispatch_all : ℕ → List Delivery → Jobs → Jobs
dispatch_all now [] jobs = jobs
dispatch_all now (d ∷ ds) jobs = dispatch_all now ds (dispatch_job d.delivery_id now jobs)

-- `admin_run_webhook_deliveries`, with the number of jobs that it reports
unfoldable pub admin_run_webhook_deliveries :
    ℕ → ℕ → Option String → Deliveries → Jobs → List AuditEvent → ℕ × (Jobs × List AuditEvent)
admin_run_webhook_deliveries now limit request_id t jobs audit =
    let due = list_due_webhook_deliveries now limit t in
    let event : AuditEvent = record {
      ts = now;
      actor = "admin";
      action = "webhooks_deliveries_run";
      request_id = request_id;
      details_json = ("enqueued", number (length due)) ∷ [];
    } in
    (length due, (dispatch_all now due jobs, insert_audit_event event audit))
