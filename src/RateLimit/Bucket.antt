-- ===== src/RateLimit/Bucket.antt =====
-- One token bucket: what it can grant over a run of calls.
use proofrail_evidence_api.Prelude.{
  ℕ, ◌+◌, ◌-◌, ◌*◌, ◌≤◌, ◌≡◌, Bool, true, false, List, [], ◌∷◌, arith,
}
use proofrail_evidence_api.RateLimit.{TokenBucket, bucket_allow}

-- what a call takes from the bucket
abbrev pub charged : Bool → ℕ → ℕ
charged true cost = cost
charged false cost = 0

-- A call takes no more than the bucket held and gained, and leaves the rest.
pub bucket_allow_balance :
    (now cost : ℕ) (b : TokenBucket)
    → charged (bucket_allow now cost b).0 cost + (bucket_allow now cost b).1.tokens
      ≤ b.tokens + (now - b.updated_at) * b.refill_per_tick
unfolding bucket_allow
bucket_allow_balance now cost b = ground arith

pub bucket_allow_fields :
    (now cost : ℕ) (b : TokenBucket)
    → ((bucket_allow now cost b).1.capacity ≡ b.capacity)
      × ((bucket_allow now cost b).1.refill_per_tick ≡ b.refill_per_tick)
      × ((bucket_allow now cost b).1.updated_at ≡ now)
unfolding bucket_allow
bucket_allow_fields now cost b = ground arith

pub bucket_allow_cap :
    (now cost : ℕ) (b : TokenBucket) → (bucket_allow now cost b).1.tokens ≤ b.capacity
unfolding bucket_allow
bucket_allow_cap now cost b = ground arith

-- the granted cost over a run of calls, each with its time and cost, and the bucket after it
unfoldable pub run_bucket : List (ℕ × ℕ) → TokenBucket → ℕ × TokenBucket
run_bucket [] b = (0, b)
run_bucket ((now, cost) ∷ calls) b =
    let (granted, b') = bucket_allow now cost b in
    let (total, b'') = run_bucket calls b' in (charged granted cost + total, b'')

-- the times of the calls do not go back, and end by `last`
abbrev pub Ordered : ℕ → List (ℕ × ℕ) → ℕ → Type 0
Ordered start [] last = start ≤ last
Ordered start ((now, cost) ∷ calls) last = (start ≤ now) × Ordered now calls last

split_time : (a b c r : ℕ) → a ≤ b → b ≤ c → (b - a) * r + (c - b) * r ≡ (c - a) * r
split_time a b c r h k = grind arith

pub Ordered-le :
    (start : ℕ) (calls : List (ℕ × ℕ)) (last : ℕ) → Ordered start calls last → start ≤ last
Ordered-le start [] last h = h
Ordered-le start ((now, cost) ∷ calls) last h = omega (arith, Ordered-le now calls last h.1)

-- Over calls whose times do not go back, a bucket grants at most the tokens it holds at the start and
-- what refills until `last`.
pub run_bucket_rate :
    (calls : List (ℕ × ℕ)) (b : TokenBucket) (last : ℕ)
    → Ordered b.updated_at calls last
    → (run_bucket calls b).0 ≤ b.tokens + (last - b.updated_at) * b.refill_per_tick
unfolding run_bucket
run_bucket_rate [] b last h = omega arith
run_bucket_rate ((now, cost) ∷ calls) b last h =
    let (_, same_refill, stamped) = bucket_allow_fields now cost b in
    let rest = run_bucket_rate calls (bucket_allow now cost b).1 last (simp stamped h.1) in
    omega (
      arith,
      simp (same_refill, stamped) at rest,
      bucket_allow_balance now cost b,
      split_time b.updated_at now last b.refill_per_tick h.0 (Ordered-le now calls last h.1),
    )
