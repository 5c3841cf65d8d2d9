-- ===== src/Webhooks/Dispatch/Emit.antt =====
-- What `_emit_webhooks` leaves in the tables.
use proofrail_evidence_api.Prelude.{
  ℕ, ◌<◌, ◌≤◌, suc, ◌≡◌, refl, String, true, false, none, some, List, [], ◌∷◌, ◌++◌, arith, any,
  str_eq, eq_iff, show, show-injective, All, Any, Bool-cases, inl, inr, All-append, All-imp,
}
use proofrail_evidence_api.Webhooks.{
  Subscription, Delivery, Deliveries, queued, enqueue_webhook_delivery,
}
use proofrail_evidence_api.Webhooks.Dispatch.{Outbox, Event, dispatch_job, wants, send_to, emit_to}
use proofrail_evidence_api.Webhooks.Dispatch.Reach.{
  has_due_job, dispatch_job_due, dispatch_job_keeps,
}

-- every delivery has an id that the counter has passed
abbrev pub IsNumbered : Deliveries → Type 0
IsNumbered t = All (λ (d : Delivery). d.delivery_id < t.next_id) t.rows

-- a queued delivery of the event to the subscription, with an id from `base` on and a job due at `now`
abbrev pub IsSent : ℕ → ℕ → Event → String → Outbox → Delivery → Type 0
IsSent base now ev subscription_id o d =
    (base ≤ d.delivery_id)
    × (d.subscription_id ≡ subscription_id)
    × (d.event_type ≡ ev.event_type)
    × (d.event_id ≡ ev.event_id)
    × (d.payload_json ≡ ev.payload_json)
    × (d.status ≡ queued)
    × (has_due_job d.delivery_id now o.jobs ≡ true)

abbrev pub Reaches : ℕ → ℕ → Event → String → Outbox → Type 0
Reaches base now ev subscription_id o = Any (IsSent base now ev subscription_id o) o.deliveries.rows

-- a subscription that the foreign key finds
abbrev pub IsKnown : List Subscription → Subscription → Type 0
IsKnown subs s = any (λ (r : Subscription). str_eq r.subscription_id s.subscription_id) subs ≡ true

module _ (ev : Event) (now : ℕ) where
  abbrev new_row : ℕ → Subscription → Delivery
  new_row id s = record {
    delivery_id = id;
    subscription_id = s.subscription_id;
    customer_id = ev.customer_id;
    event_type = ev.event_type;
    event_id = ev.event_id;
    payload_json = ev.payload_json;
    status = queued;
    attempt_count = 0;
    next_attempt_at = now;
    last_attempt_at = none;
    last_status_code = none;
    last_error = none;
    created_at = now;
    updated_at = now;
  }

  abbrev after : Subscription → Outbox → Outbox
  after s o = record o {
    deliveries = record {
      rows = o.deliveries.rows ++ new_row o.deliveries.next_id s ∷ [];
      next_id = suc o.deliveries.next_id;
    };
    jobs = dispatch_job o.deliveries.next_id now o.jobs;
  }

  send_to_lem :
      (s : Subscription) (o : Outbox) → IsKnown o.subs s → send_to ev now s o ≡ some (after s o)
  unfolding send_to enqueue_webhook_delivery
  send_to_lem s o h = rw h refl

module _ {A : Type 0} (P Q : A → Type 0) where
  Any-map : (xs : List A) → All (λ x. P x → Q x) xs → Any P xs → Any Q xs
  Any-map [] h k = absurd k
  Any-map (x ∷ xs) h (inl k) = inl (h.0 k)
  Any-map (x ∷ xs) h (inr k) = inr (Any-map xs h.1 k)

module _ {A : Type 0} (P : A → Type 0) where
  Any-left : (xs ys : List A) → Any P xs → Any P (xs ++ ys)
  Any-left [] ys h = absurd h
  Any-left (x ∷ xs) ys (inl h) = inl h
  Any-left (x ∷ xs) ys (inr h) = inr (Any-left xs ys h)

  Any-last : (xs : List A) (y : A) → P y → Any P (xs ++ y ∷ [])
  Any-last [] y h = inl h
  Any-last (x ∷ xs) y h = inr (Any-last xs y h)

-- keys of different ids are different
apart : (m n : ℕ) → m < n → str_eq (show m) (show n) ≡ false
apart m n less = elim (Bool-cases (str_eq (show m) (show n))) [
  | inl e ↦ absurd (omega (arith, less, show-injective m n ((eq_iff (show m) (show n)).0 e)))
  | inr e ↦ e
]

module _ (base : ℕ) (ev : Event) (now : ℕ) where
  Reaches-after :
      (s : Subscription) (o : Outbox)
      → base ≤ o.deliveries.next_id
      → Reaches base now ev s.subscription_id (after ev now s o)
  Reaches-after s o h =
      Any-last (IsSent base now ev s.subscription_id (after ev now s o)) o.deliveries.rows
        (new_row ev now o.deliveries.next_id s)
        (h, refl, refl, refl, refl, refl, dispatch_job_due o.deliveries.next_id now o.jobs)

  keeps-Reaches :
      (s : Subscription) (id : String) (o : Outbox)
      → IsNumbered o.deliveries
      → Reaches base now ev id o
      → Reaches base now ev id (after ev now s o)
  keeps-Reaches s id o numbered h =
      Any-left (IsSent base now ev id (after ev now s o)) o.deliveries.rows
        (new_row ev now o.deliveries.next_id s ∷ [])
        (Any-map (IsSent base now ev id o) (IsSent base now ev id (after ev now s o))
          o.deliveries.rows
          (All-imp {Q = λ d. IsSent base now ev id o d → IsSent base now ev id (after ev now s o) d}
            (λ d less k. (
              k.0,
              k.1,
              k.2,
              k.3,
              k.4,
              k.5,
              dispatch_job_keeps d.delivery_id o.deliveries.next_id now o.jobs
                  (apart d.delivery_id o.deliveries.next_id less) k.6,
            ))
            o.deliveries.rows numbered)
          h)

  IsNumbered-after :
      (s : Subscription) (o : Outbox)
      → IsNumbered o.deliveries
      → IsNumbered (after ev now s o).deliveries
  IsNumbered-after s o h =
      All-append (λ (d : Delivery). d.delivery_id < suc o.deliveries.next_id) o.deliveries.rows _
        (All-imp {Q = λ (d : Delivery). d.delivery_id < suc o.deliveries.next_id}
          (λ d less. omega (arith, less)) o.deliveries.rows h)
        (omega arith, tt)

module _ (base : ℕ) (ev : Event) (now : ℕ) where
  -- nothing that an event reached is lost, and whoever wants it is reached
  abbrev pub Delivers : List Subscription → Outbox → Outbox → Type 0
  Delivers ss o later =
      ((id : String) → Reaches base now ev id o → Reaches base now ev id later)
      × All
          (λ (s : Subscription).
            wants ev.event_type s ≡ true → Reaches base now ev s.subscription_id later)
          ss

  pub emit_to-Delivers :
      (ss : List Subscription) (o : Outbox)
      → base ≤ o.deliveries.next_id
      → All (IsKnown o.subs) ss
      → IsNumbered o.deliveries
      → (later : Outbox) × ((emit_to ev now ss o ≡ some later) × Delivers ss o later)
  unfolding emit_to
  emit_to-Delivers [] o h known numbered = (o, (refl, ((λ id r. r), tt)))
  emit_to-Delivers (s ∷ ss) o h known numbered = elim (Bool-cases (wants ev.event_type s)) [
    | inl e ↦
        let (later, (result, (kept, all))) =
          emit_to-Delivers ss (after ev now s o) (omega (arith, h)) known.1
            (IsNumbered-after base ev now s o numbered) in
        (
          later,
          (
            rw (e, send_to_lem ev now s o known.0) result,
            (
              (λ id r. kept id (keeps-Reaches base ev now s id o numbered r)),
              ((λ w. kept s.subscription_id (Reaches-after base ev now s o h)), all),
            ),
          ),
        )
    | inr e ↦
        let (later, (result, (kept, all))) = emit_to-Delivers ss o h known.1 numbered in
        (later, (rw e result, (kept, ((λ w. absurd (ground (arith, w, e))), all))))
  ]
