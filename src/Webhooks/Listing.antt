-- ===== src/Webhooks/Listing.antt =====
-- `list_webhook_subscriptions` and `list_failed_webhook_deliveries` of ProofRail/service/db.py. A
-- cursor is there if both of its parts are.
use proofrail_evidence_api.Prelude.{
  ℕ, String, Bool, true, not, ◌&&◌, ◌||◌, Option, none, some, List, filter, take, ltb, ◌==◌, str_eq,
  text_lt,
}
use proofrail_evidence_api.Table.{order_by, clamp_limit}
use proofrail_evidence_api.Webhooks.{Subscription, Delivery, Deliveries, failed, status_eq}

-- `created_at < ? OR (created_at = ? AND subscription_id < ?)`
abbrev pub comes_after : ℕ × String → Subscription → Bool
comes_after (created_at, subscription_id) s =
    ltb s.created_at created_at
    || ((s.created_at == created_at) && text_lt s.subscription_id subscription_id)

abbrev pub after_cursor : Option (ℕ × String) → Subscription → Bool
after_cursor none s = true
after_cursor (some cursor) s = comes_after cursor s

-- `ORDER BY created_at DESC, subscription_id DESC`
abbrev pub newest_first : Subscription → Subscription → Bool
newest_first a b = not (comes_after (b.created_at, b.subscription_id) a)

unfoldable pub list_webhook_subscriptions :
    String → ℕ → Option (ℕ × String) → List Subscription → List Subscription
list_webhook_subscriptions customer_id limit cursor subs = take (clamp_limit 500 limit) (
    order_by newest_first
      (filter (λ s. str_eq s.customer_id customer_id && after_cursor cursor s) subs))

-- `updated_at < ? OR (updated_at = ? AND delivery_id < ?)`
abbrev pub failed_after : ℕ × ℕ → Delivery → Bool
failed_after (updated_at, delivery_id) d =
    ltb d.updated_at updated_at || ((d.updated_at == updated_at) && ltb d.delivery_id delivery_id)

abbrev pub failed_after_cursor : Option (ℕ × ℕ) → Delivery → Bool
failed_after_cursor none d = true
failed_after_cursor (some cursor) d = failed_after cursor d

unfoldable pub list_failed_webhook_deliveries : ℕ → Option (ℕ × ℕ) → Deliveries → List Delivery
list_failed_webhook_deliveries limit cursor t = take (clamp_limit 500 limit) (
    order_by (λ a b. not (failed_after (b.updated_at, b.delivery_id) a))
      (filter (λ d. status_eq d.status failed && failed_after_cursor cursor d) t.rows))
