-- ===== src/Webhooks/Dispatch/Tests.antt =====
-- Runs of `_emit_webhooks` and of the admin's handler.
use proofrail_evidence_api.Webhooks.Listing.{list_webhook_subscriptions}
use proofrail_evidence_api.Webhooks.Dispatch.Reach.{has_due_job}
use proofrail_evidence_api.Table.{insert_by, order_by, delete_where, clamp_limit}
use proofrail_evidence_api.Prelude.{
  text_lt, ◌≤◌, inr, length, arith, Option, ℕ, ◌≡◌, refl, [], ◌∷◌, none, some, true, false, inl,
}
use proofrail_evidence_api.Jobs.{delete_pending_jobs, enqueue_job, no_jobs}
use proofrail_evidence_api.Webhooks.{retry, enqueue_webhook_delivery, Subscription, Delivery}
use proofrail_evidence_api.Webhooks.Dispatch.{
  dispatch_job, send_to, emit_to, Outbox, Event, emit_webhooks, admin_run_webhook_deliveries, wants,
}
use proofrail_evidence_api.Webhooks.Dispatch.Emit.{Reaches}
use proofrail_evidence_api.Webhooks.Dispatch.Complete.{emit_webhooks-Reaches}
use proofrail_evidence_api.Webhooks.Dispatch.Sweep.{admin_run_webhook_deliveries-Queued}

abbrev sub : Subscription
sub = record {
  subscription_id = "s1";
  customer_id = "acme";
  url = "https://example.com/";
  secret = "k";
  events = "screening.created" ∷ [];
  active = true;
  created_at = 1;
}

abbrev other : Subscription
other = record sub { subscription_id = "s2"; active = false }

abbrev created : Event
created = record {
  customer_id = "acme";
  event_type = "screening.created";
  event_id = "e1";
  payload_json = "{}";
}

abbrev outbox : Outbox
outbox = record {
  subs = other ∷ sub ∷ [];
  deliveries = record { rows = []; next_id = 1 };
  jobs = no_jobs;
}

program : Unit {0}
unfolding emit_webhooks emit_to send_to wants list_webhook_subscriptions enqueue_webhook_delivery
    dispatch_job enqueue_job delete_pending_jobs delete_where order_by insert_by clamp_limit text_lt
program = tt

abbrev map_result : Option Outbox → Option (ℕ × ℕ)
map_result none = none
map_result (some o) = some (length o.deliveries.rows, length o.jobs.rows)

one_delivery : map_result (emit_webhooks created 5 outbox) ≡ some (1, 1)
unfolding program
one_delivery = refl

emit_webhooks-Reaches_example :
    (later : Outbox) × ((emit_webhooks created 5 outbox ≡ some later)
      × Reaches 1 5 created "s1" later)
emit_webhooks-Reaches_example =
    emit_webhooks-Reaches created 5 outbox sub tt (omega arith) (inr (inl refl)) refl refl
      (inl (inl refl))

abbrev due : Delivery
due = record {
  delivery_id = 4;
  subscription_id = "s1";
  customer_id = "acme";
  event_type = "screening.created";
  event_id = "e1";
  payload_json = "{}";
  status = retry;
  attempt_count = 1;
  next_attempt_at = 3;
  last_attempt_at = some 2;
  last_status_code = some 500;
  last_error = some "http_error";
  created_at = 1;
  updated_at = 2;
}

limit_of_fifty : 1 ≤ clamp_limit 500 50
unfolding clamp_limit
limit_of_fifty = omega arith

admin_run_webhook_deliveries-Queued_example :
    has_due_job 4 9
      (admin_run_webhook_deliveries 9 50 none
        (record { rows = due ∷ []; next_id = 5 })
        no_jobs
        []).1.0
    ≡ true
admin_run_webhook_deliveries-Queued_example =
    admin_run_webhook_deliveries-Queued 9 50 none (record { rows = due ∷ []; next_id = 5 }) no_jobs
      [] due limit_of_fifty (inl refl) refl
