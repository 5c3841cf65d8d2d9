-- ===== src/Webhooks.antt =====
-- Webhooks: the tables `webhook_subscriptions` and `webhook_deliveries` of ProofRail/service/db.py,
-- and `deliver_once` and `next_attempt_ts` of ProofRail/service/webhooks.py. Timestamps are whole
-- seconds; the backoff base is in milliseconds.
pub mod Attempts
pub mod Listing
pub mod Dispatch
pub mod Targets
use proofrail_evidence_api.Prelude.{
  ℕ, suc, ◌+◌, ◌*◌, ◌/◌, ◌^◌, min, String, Bool, true, false, not, ◌&&◌, ◌||◌, Option, none, some,
  List, [], ◌∷◌, ◌++◌, filter, find?, any, take, ltb, leb, ◌==◌, str_eq, if◌then◌else◌,
}
use proofrail_evidence_api.Table.{update_where, delete_where, count_where, order_by, clamp_limit}

pub record Subscription : Type 0 where
  pub subscription_id : String
  pub customer_id : String
  pub url : String
  pub secret : String
  pub events : List String
  pub active : Bool
  pub created_at : ℕ

pub data DeliveryStatus : Type 0 where
  queued retry delivered failed : DeliveryStatus

abbrev pub status_eq : DeliveryStatus → DeliveryStatus → Bool
status_eq queued queued = true
status_eq retry retry = true
status_eq delivered delivered = true
status_eq failed failed = true
status_eq _ _ = false

-- `status IN ('queued','retry')`
abbrev pub is_open : DeliveryStatus → Bool
is_open queued = true
is_open retry = true
is_open _ = false

pub record Delivery : Type 0 where
  pub delivery_id : ℕ
  pub subscription_id : String
  pub customer_id : String
  pub event_type : String
  pub event_id : String
  pub payload_json : String
  pub status : DeliveryStatus
  pub attempt_count : ℕ
  pub next_attempt_at : ℕ
  pub last_attempt_at : Option ℕ
  pub last_status_code : Option ℕ
  pub last_error : Option String
  pub created_at : ℕ
  pub updated_at : ℕ

-- `next_id` is the AUTOINCREMENT counter
pub record Deliveries : Type 0 where
  pub rows : List Delivery
  pub next_id : ℕ

-- `get_webhook_subscription`
unfoldable pub get_webhook_subscription : String → List Subscription → Option Subscription
get_webhook_subscription id = find? (λ s. str_eq s.subscription_id id)

-- `create_webhook_subscription`; `none` is the IntegrityError of the primary key
unfoldable pub create_webhook_subscription :
    Subscription → List Subscription → Option (List Subscription)
create_webhook_subscription new subs =
    if any (λ s. str_eq s.subscription_id new.subscription_id) subs
    then none
    else some (subs ++ new ∷ [])

-- `delete_webhook_subscription`: its deliveries go first; the answer is whether a row went
unfoldable pub delete_webhook_subscription :
    String → String → List Subscription → Deliveries → Bool × List Subscription × Deliveries
delete_webhook_subscription id customer subs t =
    let hit = λ (s : Subscription). str_eq s.subscription_id id && str_eq s.customer_id customer in
    (
      ltb 0 (count_where hit subs),
      delete_where hit subs,
      record t {
        rows =
            delete_where (λ d. str_eq d.subscription_id id && str_eq d.customer_id customer) t.rows;
      },
    )

-- `enqueue_webhook_delivery`; `none` is the IntegrityError of the foreign key
unfoldable pub enqueue_webhook_delivery :
    String
    → String
    → String
    → String
    → String
    → ℕ
    → List Subscription
    → Deliveries
    → Option (ℕ × Deliveries)
enqueue_webhook_delivery subscription_id customer_id event_type event_id payload_json now subs t =
    if any (λ s. str_eq s.subscription_id subscription_id) subs
    then some (
      t.next_id,
      record {
        rows =
            t.rows
            ++ record {
              delivery_id = t.next_id;
              subscription_id = subscription_id;
              customer_id = customer_id;
              event_type = event_type;
              event_id = event_id;
              payload_json = payload_json;
              status = queued;
              attempt_count = 0;
              next_attempt_at = now;
              last_attempt_at = none;
              last_status_code = none;
              last_error = none;
              created_at = now;
              updated_at = now;
            }
              ∷ [];
        next_id = suc t.next_id;
      },
    )
    else none

-- `list_due_webhook_deliveries`
unfoldable pub list_due_webhook_deliveries : ℕ → ℕ → Deliveries → List Delivery
list_due_webhook_deliveries now limit t = take (clamp_limit 500 limit) (
    order_by (λ a b. leb a.next_attempt_at b.next_attempt_at)
      (filter (λ d. is_open d.status && leb d.next_attempt_at now) t.rows))

-- `get_webhook_delivery`
unfoldable pub get_webhook_delivery : ℕ → Deliveries → Option Delivery
get_webhook_delivery id t = find? (λ d. d.delivery_id == id) t.rows

abbrev pub set_delivery : ℕ → (Delivery → Delivery) → Deliveries → Deliveries
set_delivery id f t = record t { rows = update_where (λ d. d.delivery_id == id) f t.rows }

-- `mark_webhook_delivery_success`
unfoldable pub mark_webhook_delivery_success : ℕ → ℕ → ℕ → Deliveries → Deliveries
mark_webhook_delivery_success id now status_code = set_delivery id (λ d. record d {
  status = delivered;
  last_attempt_at = some now;
  last_status_code = some status_code;
  updated_at = now;
})

-- `mark_webhook_delivery_retry`
unfoldable pub mark_webhook_delivery_retry :
    ℕ → ℕ → ℕ → Option ℕ → Option String → Deliveries → Deliveries
mark_webhook_delivery_retry id now next_attempt_at status_code error = set_delivery id (λ d.
    record d {
      status = retry;
      attempt_count = d.attempt_count + 1;
      next_attempt_at = next_attempt_at;
      last_attempt_at = some now;
      last_status_code = status_code;
      last_error = error;
      updated_at = now;
    })

-- `mark_webhook_delivery_failed`
unfoldable pub mark_webhook_delivery_failed : ℕ → ℕ → Option String → Deliveries → Deliveries
mark_webhook_delivery_failed id now error = set_delivery id (λ d. record d {
  status = failed;
  last_attempt_at = some now;
  last_error = error;
  updated_at = now;
})

-- `webhook_delivery_counts`: a status with no row has no entry
unfoldable pub webhook_delivery_counts : Deliveries → DeliveryStatus → Option ℕ
webhook_delivery_counts t st =
    let n = count_where (λ (d : Delivery). status_eq d.status st) t.rows in
    if n == 0 then none else some n

pub record DeliveryResult : Type 0 where
  pub ok : Bool
  pub status_code : Option ℕ
  pub error : Option String

-- what `client.post` does: an answer with its status, or an exception of a named class
pub data Answer : Type 0 where
  responded : ℕ → Answer
  raised : String → Answer

-- `deliver_once`: `validate` is `validate_webhook_url` with DNS (`none` is its ValueError), `sign`
-- is `sign_webhook`, and `post` sends the body with the signature header
unfoldable pub deliver_once :
    (String → Option String)
    → (String → String → String)
    → (String → String → String → Answer)
    → String
    → String
    → String
    → DeliveryResult
deliver_once validate sign post url secret payload_json = elim (validate url) [
  | none ↦ record { ok = false; status_code = none; error = some "webhook_url_not_allowed" }
  | some target ↦ elim (post target payload_json (sign secret payload_json)) [
    | raised name ↦ record { ok = false; status_code = none; error = some name }
    | responded code ↦
        let ok = leb 200 code && ltb code 300 in
        record { ok = ok; status_code = some code; error = if ok then none else some "http_error" }
  ]
]

-- `next_attempt_ts`: the base doubled for each attempt so far, sixteen times at most; the result is
-- cut to whole seconds
unfoldable pub next_attempt_ts : ℕ → ℕ → ℕ → ℕ
next_attempt_ts now attempt_count retry_base_ms =
    now + retry_base_ms * 2 ^ min attempt_count 16 / 1000
