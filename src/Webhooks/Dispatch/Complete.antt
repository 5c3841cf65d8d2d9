-- ===== src/Webhooks/Dispatch/Complete.antt =====
-- `_emit_webhooks` reaches every subscription of a customer with at most 200 of them.
use proofrail_evidence_api.Table.Selected.{selected-All, All-one}
use proofrail_evidence_api.Table.{All-order_by, clamp_limit}
use proofrail_evidence_api.Webhooks.Dispatch.Emit.{emit_to-Delivers, Reaches, IsNumbered, IsKnown}
use proofrail_evidence_api.Webhooks.Listing.{newest_first, after_cursor, list_webhook_subscriptions}
use proofrail_evidence_api.Prelude.{
  inl, inr, sym, ◌||◌, any, ◌⊎◌, eq_iff, refl, some, All-filter, arith, All-take, ◌≤◌, [], eq_refl,
  true, ◌∷◌, length, ℕ, none, ◌≡◌, ◌&&◌, filter, Any, All, str_eq, String, Bool, List,
}
use proofrail_evidence_api.Webhooks.{Subscription}
use proofrail_evidence_api.Webhooks.Dispatch.{wants, Event, emit_webhooks, Outbox}

IsKnown-All :
    (xs subs : List Subscription)
    → ((s : Subscription) → IsKnown xs s → IsKnown subs s)
    → All (IsKnown subs) xs
IsKnown-All [] subs f = tt
IsKnown-All (x ∷ xs) subs f = (
  f x (rw (eq_refl x.subscription_id) refl),
  IsKnown-All xs subs (λ s h. f s (ground (arith, h))),
)

abbrev pub of_customer : String → Subscription → Bool
of_customer customer_id s = str_eq s.customer_id customer_id && after_cursor none s

listed-IsKnown :
    (customer_id : String) (subs : List Subscription)
    → All (IsKnown subs) (list_webhook_subscriptions customer_id 200 none subs)
unfolding list_webhook_subscriptions
listed-IsKnown customer_id subs = All-take (IsKnown subs) (clamp_limit 500 200) _ (
    All-order_by newest_first (IsKnown subs) (filter (of_customer customer_id) subs)
      (All-filter (IsKnown subs) (of_customer customer_id) subs (IsKnown-All subs subs (λ s h. h))))

-- no call of the loop raises
pub emit_webhooks_lem :
    (ev : Event) (now : ℕ) (o : Outbox)
    → IsNumbered o.deliveries
    → (later : Outbox) × (emit_webhooks ev now o ≡ some later)
unfolding emit_webhooks
emit_webhooks_lem ev now o numbered =
    let (later, (result, rest)) =
      emit_to-Delivers o.deliveries.next_id ev now
        (list_webhook_subscriptions ev.customer_id 200 none o.subs) o (omega arith)
        (listed-IsKnown ev.customer_id o.subs) numbered in
    (later, result)

-- the subscription names the event type or `*`
abbrev pub Names : String → Subscription → Type 0
Names event_type s = Any (λ e. (e ≡ event_type) ⊎ (e ≡ "*")) s.events

any-Names :
    (event_type : String) (es : List String)
    → Any (λ e. (e ≡ event_type) ⊎ (e ≡ "*")) es
    → (any (str_eq event_type) es || any (str_eq "*") es) ≡ true
any-Names event_type [] h = absurd h
any-Names event_type (e ∷ es) (inl (inl h)) = ground (arith, (eq_iff event_type e).1 (sym h))
any-Names event_type (e ∷ es) (inl (inr h)) = ground (arith, (eq_iff "*" e).1 (sym h))
any-Names event_type (e ∷ es) (inr h) = ground (arith, any-Names event_type es h)

wants-Names :
    (event_type : String) (s : Subscription)
    → s.active ≡ true
    → Names event_type s
    → wants event_type s ≡ true
unfolding wants
wants-Names event_type s active named = rw (active, any-Names event_type s.events named) refl

-- A customer with at most 200 subscriptions, and a delivery table whose ids are below the next one:
-- `_emit_webhooks` succeeds, and afterwards every active subscription of the customer that names
-- the event type or `*` has a new queued delivery of the event, and a job that is due at once and
-- whose payload names that delivery.
pub emit_webhooks-Reaches :
    (ev : Event) (now : ℕ) (o : Outbox) (s : Subscription)
    → IsNumbered o.deliveries
    → length (filter (of_customer ev.customer_id) o.subs) ≤ 200
    → Any (λ r. r ≡ s) o.subs
    → s.customer_id ≡ ev.customer_id
    → s.active ≡ true
    → Names ev.event_type s
    → (later : Outbox) × ((emit_webhooks ev now o ≡ some later)
        × Reaches o.deliveries.next_id now ev s.subscription_id later)
unfolding emit_webhooks list_webhook_subscriptions clamp_limit
emit_webhooks-Reaches ev now o s numbered few among owner active named =
    let (later, (result, (kept, all))) =
      emit_to-Delivers o.deliveries.next_id ev now
        (list_webhook_subscriptions ev.customer_id 200 none o.subs) o (omega arith)
        (listed-IsKnown ev.customer_id o.subs) numbered in
    let reached = All-one _ s o.subs among (
      selected-All
        (λ r.
          wants ev.event_type r ≡ true
          → Reaches o.deliveries.next_id now ev r.subscription_id later)
        newest_first (of_customer ev.customer_id) 200 o.subs few all) in
    (
      later,
      (
        result,
        reached (rw ((eq_iff s.customer_id ev.customer_id).1 owner) refl)
            (wants-Names ev.event_type s active named),
      ),
    )
