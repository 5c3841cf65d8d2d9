-- ===== src/RateLimit.antt =====
-- ProofRail/service/ratelimit.py. Time is a number of clock ticks, and tokens are counted in a unit
-- so small that one tick refills a whole number of them: with milliseconds and a refill of rpm / 60
-- tokens a second, 60000 units make a token and a tick refills rpm units.
pub mod Bucket
pub mod Limiter
pub mod Isolation
mod Tests
use proofrail_evidence_api.Prelude.{
  ℕ, ◌+◌, ◌-◌, ◌*◌, String, Bool, true, false, Option, none, some, [], min, leb, if◌then◌else◌,
}
use proofrail_evidence_api.OrderedDict.{OrderedDict, get, set_last, make_room}

pub record TokenBucket : Type 0 where
  pub capacity : ℕ
  pub refill_per_tick : ℕ
  pub tokens : ℕ
  pub updated_at : ℕ

-- the first three lines of `TokenBucket.allow`: `now - updated_at` stops at 0, as
-- `max(0.0, now - self.updated_at_s)` does
unfoldable pub refill : ℕ → TokenBucket → TokenBucket
refill now b = record b {
  tokens = min b.capacity (b.tokens + (now - b.updated_at) * b.refill_per_tick);
  updated_at = now;
}

-- `TokenBucket.allow`
unfoldable pub bucket_allow : ℕ → ℕ → TokenBucket → Bool × TokenBucket
unfolding refill
bucket_allow now cost b =
    let b' = refill now b in
    if leb cost b'.tokens then (true, record b' { tokens = b'.tokens - cost }) else (false, b')

pub record RateLimiter : Type 0 where
  pub capacity : ℕ
  pub refill_per_tick : ℕ
  pub max_buckets : Option ℕ
  pub buckets : OrderedDict TokenBucket

-- `RateLimiter.__init__`
unfoldable pub new_limiter : ℕ → ℕ → Option ℕ → RateLimiter
new_limiter capacity refill_per_tick max_buckets = record {
  capacity = capacity;
  refill_per_tick = refill_per_tick;
  max_buckets = max_buckets;
  buckets = [];
}

-- a bucket for a key that has none, full
unfoldable pub fresh_bucket : RateLimiter → ℕ → TokenBucket
fresh_bucket r now = record {
  capacity = r.capacity;
  refill_per_tick = r.refill_per_tick;
  tokens = r.capacity;
  updated_at = now;
}

-- the buckets that stay when a new key comes; `none` is the KeyError of `popitem` on an empty dict
unfoldable pub evict : RateLimiter → Option (OrderedDict TokenBucket)
evict r = elim r.max_buckets [ none ↦ some r.buckets | some m ↦ make_room m r.buckets ]

-- the bucket of the key, made if it is missing, and the buckets that it is put last in
unfoldable pub checkout : RateLimiter → ℕ → String → Option (TokenBucket × OrderedDict TokenBucket)
checkout r now key = elim (get r.buckets key) [
  | some b ↦ some (b, r.buckets)
  | none ↦ elim (evict r) [ none ↦ none | some kept ↦ some (fresh_bucket r now, kept) ]
]

-- `RateLimiter.allow`. The bucket is mutated in place in the source; here it is written back last.
unfoldable pub allow : ℕ → String → ℕ → RateLimiter → Option (Bool × RateLimiter)
allow now key cost r = elim (checkout r now key) [
  | none ↦ none
  | some (b, kept) ↦
      let (granted, b') = bucket_allow now cost b in
      some (granted, record r { buckets = set_last kept key b' })
]
