-- ===== src/RateLimit/Isolation.antt =====
-- Many keys share a limiter: each sees a token bucket of its own.
use proofrail_evidence_api.Prelude.{
  ◌*◌, ◌-◌, ◌≤◌, ◌∙◌, ℕ, ◌+◌, String, ◌≡◌, refl, Bool, true, false, ◌&&◌, none, some, List, [], ◌∷◌,
  arith, str_eq, eq_iff, if◌then◌else◌, Bool-cases, inl, inr,
}
use proofrail_evidence_api.OrderedDict.{get, get-set_last}
use proofrail_evidence_api.RateLimit.{fresh_bucket, TokenBucket, RateLimiter, bucket_allow, allow}
use proofrail_evidence_api.RateLimit.Bucket.{run_bucket_rate, Ordered, charged, run_bucket}
use proofrail_evidence_api.RateLimit.Limiter.{bucket_of, roomy, allow-roomy}

pub record Call : Type 0 where
  pub now : ℕ
  pub key : String
  pub cost : ℕ

-- the limiter after a call; a KeyError leaves it as it was
unfoldable pub after : Call → RateLimiter → RateLimiter
after c r = elim (allow c.now c.key c.cost r) [ none ↦ r | some (_, r') ↦ r' ]

-- what a call grants
unfoldable pub grants : Call → RateLimiter → ℕ
grants c r = elim (allow c.now c.key c.cost r) [
  | none ↦ 0
  | some (granted, _) ↦ charged granted c.cost
]

-- the cost granted to one key over a run of calls of many keys
unfoldable pub granted_to : String → List Call → RateLimiter → ℕ
granted_to k [] r = 0
granted_to k (c ∷ calls) r =
    let rest = granted_to k calls (after c r) in if str_eq c.key k then grants c r + rest else rest

-- the times and costs of the calls of one key
unfoldable pub calls_of : String → List Call → List (ℕ × ℕ)
calls_of k [] = []
calls_of k (c ∷ calls) =
    let rest = calls_of k calls in if str_eq c.key k then (c.now, c.cost) ∷ rest else rest

-- no call of the run finds the limiter full without a bucket of its own
unfoldable pub never_evicts : List Call → RateLimiter → Bool
never_evicts [] r = true
never_evicts (c ∷ calls) r = let rest = never_evicts calls (after c r) in roomy r c.key && rest

module _ (c : Call) (r : RateLimiter) (room : roomy r c.key ≡ true) where
  grants_roomy : grants c r ≡ charged (bucket_allow c.now c.cost (bucket_of r c.now c.key)).0 c.cost
  unfolding grants
  grants_roomy = rw (allow-roomy c.now c.key c.cost r room, grants)

  get-after :
      (k : String)
      → get (after c r).buckets k ≡ (
          if str_eq c.key k
          then some (bucket_allow c.now c.cost (bucket_of r c.now c.key)).1
          else get r.buckets k)
  unfolding after
  get-after k =
      rw (allow-roomy c.now c.key c.cost r room, after)
        (get-set_last r.buckets c.key k (bucket_allow c.now c.cost (bucket_of r c.now c.key)).1)

module _ (k : String) (c : Call) (r : RateLimiter) (room : roomy r c.key ≡ true) where
  get-after_ne : str_eq c.key k ≡ false → get (after c r).buckets k ≡ get r.buckets k
  get-after_ne other = rw (get-after c r room k) (rw other)

  -- the key's first call starts from a fresh bucket
  step_self :
      str_eq c.key k ≡ true
      → (get (after c r).buckets k ≡ some (bucket_allow c.now c.cost (bucket_of r c.now k)).1)
        × (grants c r ≡ charged (bucket_allow c.now c.cost (bucket_of r c.now k)).0 c.cost)
  step_self same =
      let e : c.key ≡ k = (eq_iff c.key k).0 same in
      ground (arith, e, get-after c r room k, grants_roomy c r room)

  bucket_of_hit : (now : ℕ) (b : TokenBucket) → get r.buckets k ≡ some b → bucket_of r now k ≡ b
  unfolding bucket_of
  bucket_of_hit now b hit = rw (hit, bucket_of)

-- While nothing is evicted, what a key is granted among any calls of other keys is what its own
-- bucket grants to its own calls.
pub granted_to-run_bucket :
    (k : String) (calls : List Call) (r : RateLimiter) (b : TokenBucket)
    → get r.buckets k ≡ some b
    → never_evicts calls r ≡ true
    → granted_to k calls r ≡ (run_bucket (calls_of k calls) b).0
unfolding granted_to run_bucket calls_of never_evicts
granted_to-run_bucket k [] r b hit fits = refl
granted_to-run_bucket k (c ∷ calls) r b hit fits = elim (Bool-cases (str_eq c.key k)) [
  | inl same ↦
      let room : roomy r c.key ≡ true = ground arith in
      let rest : never_evicts calls (after c r) ≡ true = ground arith in
      let (next, granted) = step_self k c r room same in
      let own = bucket_of_hit k c r room c.now b hit in
      rw same (
        ground (
          arith,
          own,
          granted,
          granted_to-run_bucket k calls (after c r) (bucket_allow c.now c.cost b).1 (ground arith)
              rest,
        ))
  | inr other ↦
      let room : roomy r c.key ≡ true = ground arith in
      rw other (
        granted_to-run_bucket k calls (after c r) b (get-after_ne k c r room other ∙ hit)
          (ground arith))
]

module _ (c : Call) (r : RateLimiter) (room : roomy r c.key ≡ true) where
  after_fields :
      ((after c r).capacity ≡ r.capacity) × ((after c r).refill_per_tick ≡ r.refill_per_tick)
  unfolding after
  after_fields = rw (allow-roomy c.now c.key c.cost r room, after) (refl, refl)

  fresh_bucket-after : (start : ℕ) → fresh_bucket (after c r) start ≡ fresh_bucket r start
  unfolding fresh_bucket
  fresh_bucket-after start = ground (arith, after_fields)

-- a full bucket gains nothing by waiting
fresh_bucket_waits :
    (now cost start : ℕ) (r : RateLimiter)
    → bucket_allow now cost (fresh_bucket r start) ≡ bucket_allow now cost (fresh_bucket r now)
unfolding bucket_allow fresh_bucket
fresh_bucket_waits now cost start r = ground arith

-- a key that is not there yet has a full bucket to come
granted_to-fresh_bucket :
    (k : String) (calls : List Call) (r : RateLimiter) (start : ℕ)
    → get r.buckets k ≡ none
    → never_evicts calls r ≡ true
    → granted_to k calls r ≡ (run_bucket (calls_of k calls) (fresh_bucket r start)).0
unfolding granted_to run_bucket calls_of never_evicts
granted_to-fresh_bucket k [] r start miss fits = refl
granted_to-fresh_bucket k (c ∷ calls) r start miss fits = elim (Bool-cases (str_eq c.key k)) [
  | inl same ↦
      let room : roomy r c.key ≡ true = ground arith in
      let rest : never_evicts calls (after c r) ≡ true = ground arith in
      let (next, granted) = step_self k c r room same in
      let own : bucket_of r c.now k ≡ fresh_bucket r c.now =
        unfold bucket_of in rw (miss, bucket_of) in
      rw same (
        ground (
          arith,
          own,
          granted,
          fresh_bucket_waits c.now c.cost start r,
          granted_to-run_bucket k calls (after c r)
              (bucket_allow c.now c.cost (bucket_of r c.now k)).1 next rest,
        ))
  | inr other ↦
      let room : roomy r c.key ≡ true = ground arith in
      rw (other, ← fresh_bucket-after c r room start)
        (granted_to-fresh_bucket k calls (after c r) start (get-after_ne k c r room other ∙ miss)
          (ground arith))
]

-- While nothing is evicted, a key that starts without a bucket is granted, over any calls of any
-- keys, at most `capacity` and what refills between `start` and `last`, if its own calls are in
-- order between these.
pub granted_to_rate :
    (k : String) (calls : List Call) (r : RateLimiter) (start last : ℕ)
    → get r.buckets k ≡ none
    → never_evicts calls r ≡ true
    → Ordered start (calls_of k calls) last
    → granted_to k calls r ≤ r.capacity + (last - start) * r.refill_per_tick
granted_to_rate k calls r start last miss fits times =
    rw (granted_to-fresh_bucket k calls r start miss fits)
      (unfold fresh_bucket in run_bucket_rate (calls_of k calls) (fresh_bucket r start) last times)
