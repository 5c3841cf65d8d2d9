-- ===== src/Worker/Attempts.antt =====
-- What an attempt at a delivery writes into its row.
use proofrail_evidence_api.Prelude.{
  ℕ, ◌+◌, ◌≡◌, refl, true, false, Option, none, some, arith, ◌==◌, leb, if◌then◌else◌, Bool-cases,
  Option-cases, inl, inr,
}
use proofrail_evidence_api.Webhooks.{
  delivered, failed, retry, next_attempt_ts, Delivery, Deliveries, Subscription, DeliveryResult,
  get_webhook_delivery, get_webhook_subscription, mark_webhook_delivery_success,
  mark_webhook_delivery_retry, mark_webhook_delivery_failed, set_delivery,
}
use proofrail_evidence_api.Webhooks.Attempts.{get-set_delivery, updated}
use proofrail_evidence_api.Worker.{Env, WorkerState, record_result, attempt_delivery}

module _ {A : Type 0} (env : Env A) where
  -- what an attempt writes into the row of the delivery
  unfoldable pub result_row : Delivery → DeliveryResult → Delivery → Delivery
  result_row d res x =
      if res.ok
      then record x {
        status = delivered;
        last_attempt_at = some env.now;
        last_status_code = some (elim res.status_code [ none ↦ 0 | some code ↦ code ]);
        updated_at = env.now;
      }
      else if leb env.webhook_max_attempts (d.attempt_count + 1)
      then record x {
        status = failed;
        last_attempt_at = some env.now;
        last_error = res.error;
        updated_at = env.now;
      }
      else record x {
        status = retry;
        attempt_count = x.attempt_count + 1;
        next_attempt_at = next_attempt_ts env.now d.attempt_count env.webhook_retry_base_ms;
        last_attempt_at = some env.now;
        last_status_code = res.status_code;
        last_error = res.error;
        updated_at = env.now;
      }

  unfoldable pub missing_row : Delivery → Delivery
  missing_row x = record x {
    status = failed;
    last_attempt_at = some env.now;
    last_error = some "subscription_missing";
    updated_at = env.now;
  }

  unfoldable pub attempt_row : Delivery → Option Subscription → Delivery → Delivery
  unfolding result_row missing_row
  attempt_row d none x = missing_row x
  attempt_row d (some sub) x =
      if sub.active then result_row d (env.deliver sub d) x else missing_row x

  attempt_row_id :
      (d : Delivery) (s : Option Subscription) (x : Delivery)
      → (attempt_row d s x).delivery_id ≡ x.delivery_id
  unfolding attempt_row
  attempt_row_id d s x = ground arith

  record_result_lem :
      (d : Delivery) (res : DeliveryResult) (t : Deliveries)
      → record_result env d res t ≡ set_delivery d.delivery_id (result_row d res) t
  unfolding record_result result_row mark_webhook_delivery_success mark_webhook_delivery_retry
      mark_webhook_delivery_failed
  record_result_lem d res t = elim (Bool-cases res.ok) [
    | inl e ↦ rw (e, result_row, record_result)
    | inr e ↦ elim (Bool-cases (leb env.webhook_max_attempts (d.attempt_count + 1))) [
      | inl last ↦ rw (e, last, result_row, record_result)
      | inr more ↦ rw (e, more, result_row, record_result)
    ]
  ]

  attempt_delivery_lem :
      (d : Delivery) (w : WorkerState A)
      → attempt_delivery env d w
        ≡ set_delivery d.delivery_id
            (attempt_row d (get_webhook_subscription d.subscription_id w.subs))
            w.deliveries
  unfolding attempt_delivery attempt_row mark_webhook_delivery_failed
  attempt_delivery_lem d w =
      elim (Option-cases (get_webhook_subscription d.subscription_id w.subs)) [
        | inl gone ↦ rw (gone, attempt_delivery, attempt_row)
        | inr (sub, found) ↦
            rw (found, attempt_delivery, attempt_row)
              (elim sub.active
                as (λ b.
                  (if b
                    then record_result env d (env.deliver sub d) w.deliveries
                    else mark_webhook_delivery_failed d.delivery_id env.now
                        (some "subscription_missing") w.deliveries)
                  ≡ set_delivery d.delivery_id
                      (λ x. if b then result_row d (env.deliver sub d) x else missing_row x)
                      w.deliveries) [
                        | true ↦ record_result_lem d (env.deliver sub d) w.deliveries
                        | false ↦ refl
                      ])
      ]

  -- what an attempt at `d` leaves to be read at any id
  pub get-attempt_delivery :
      (d : Delivery) (w : WorkerState A) (e : ℕ)
      → get_webhook_delivery e (attempt_delivery env d w)
        ≡ updated
            (e == d.delivery_id)
            (attempt_row d (get_webhook_subscription d.subscription_id w.subs))
            (get_webhook_delivery e w.deliveries)
  get-attempt_delivery d w e =
      rw (attempt_delivery_lem d w)
        (get-set_delivery d.delivery_id e _ w.deliveries (attempt_row_id d _))
