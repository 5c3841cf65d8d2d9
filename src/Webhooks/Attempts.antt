-- ===== src/Webhooks/Attempts.antt =====
-- Reading a delivery back after an UPDATE, and the backoff.
use proofrail_evidence_api.Prelude.{
  false, true, ℕ, ◌+◌, ◌*◌, ◌^◌, ◌≤◌, min, ◌≡◌, refl, Bool, Option, none, some, List, [], ◌∷◌,
  arith, find?, ◌==◌, if◌then◌else◌, Bool-cases, inl, inr,
}
use native.Mathlib.Nat.{pow-le-pow_right}
use proofrail_evidence_api.Table.{update_where}
use proofrail_evidence_api.Webhooks.{
  Delivery, Deliveries, get_webhook_delivery, set_delivery, next_attempt_ts,
}

-- a fetched delivery has the id that was asked for
pub get_webhook_delivery_id :
    (id : ℕ) (t : Deliveries) (d : Delivery)
    → get_webhook_delivery id t ≡ some d
    → d.delivery_id ≡ id
unfolding get_webhook_delivery
get_webhook_delivery_id id t d = rows t.rows
  where
    rows : (xs : List Delivery) → find? (λ d. d.delivery_id == id) xs ≡ some d → d.delivery_id ≡ id
    rows [] h = ground arith
    rows (x ∷ xs) h = elim (Bool-cases (x.delivery_id == id)) [
      | inl e ↦ ground arith
      | inr e ↦ rows xs (ground arith)
    ]

abbrev pub updated : Bool → (Delivery → Delivery) → Option Delivery → Option Delivery
updated hit f none = none
updated hit f (some d) = some (if hit then f d else d)

pub updated_hit :
    (b : Bool) (f : Delivery → Delivery) (o : Option Delivery) (d : Delivery)
    → b ≡ true
    → o ≡ some d
    → updated b f o ≡ some (f d)
updated_hit b f o d e h = rw (h, e)

pub updated_miss :
    (b : Bool) (f : Delivery → Delivery) (o : Option Delivery) → b ≡ false → updated b f o ≡ o
updated_miss b f none e = refl
updated_miss b f (some d) e = rw e

-- An UPDATE of one delivery changes what is read at its id, and nothing else.
pub get-set_delivery :
    (id e : ℕ) (f : Delivery → Delivery) (t : Deliveries)
    → ((d : Delivery) → (f d).delivery_id ≡ d.delivery_id)
    → get_webhook_delivery e (set_delivery id f t) ≡ updated (e == id) f (get_webhook_delivery e t)
unfolding get_webhook_delivery update_where
get-set_delivery id e f t same = rows t.rows
  where
    rows :
        (xs : List Delivery)
        → find? (λ d. d.delivery_id == e) (update_where (λ d. d.delivery_id == id) f xs)
          ≡ updated (e == id) f (find? (λ d. d.delivery_id == e) xs)
    rows [] = refl
    rows (x ∷ xs) = ground (arith, rows xs, same x)

mul-le-mul_left : {p q : ℕ} → p ≤ q → (base : ℕ) → base * p ≤ base * q
mul-le-mul_left h base = grind arith

-- The delay before the next attempt never falls from one attempt to the next, and from the
-- seventeenth on it stays.
pub next_attempt_ts_mono :
    (now a b base : ℕ)
    → a ≤ b
    → (now ≤ next_attempt_ts now a base)
      × (next_attempt_ts now a base ≤ next_attempt_ts now b base)
      × (next_attempt_ts now (16 + b) base ≡ next_attempt_ts now 16 base)
unfolding next_attempt_ts
next_attempt_ts_mono now a b base h =
    let powers : 2 ^ min a 16 ≤ 2 ^ min b 16 = pow-le-pow_right (omega arith) (omega arith) in
    let delays = mul-le-mul_left powers base in
    let top : min (16 + b) 16 ≡ 16 = omega arith in (omega arith, omega arith, rw top)
