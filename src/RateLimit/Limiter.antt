-- ===== src/RateLimit/Limiter.antt =====
-- The limiter: bounded memory, and one independent bucket for each key.
use proofrail_evidence_api.Prelude.{
  ℕ, ◌≤◌, String, ◌≡◌, Bool, true, none, some, arith, length, ltb, Option-cases, inl, inr,
}
use proofrail_evidence_api.OrderedDict.{
  length-set_last_hit, length-set_last-le, OrderedDict, get, set_last, length-make_room-lt,
  make_room_fits,
}
use proofrail_evidence_api.RateLimit.{
  TokenBucket, RateLimiter, bucket_allow, fresh_bucket, evict, checkout, allow,
}

-- the bucket that a call of the key uses
unfoldable pub bucket_of : RateLimiter → ℕ → String → TokenBucket
bucket_of r now key = elim (get r.buckets key) [ some b ↦ b | none ↦ fresh_bucket r now ]

-- the key has a bucket already, or there is room for one more
unfoldable pub roomy : RateLimiter → String → Bool
roomy r key = elim (get r.buckets key) [
  | some _ ↦ true
  | none ↦ elim r.max_buckets [ none ↦ true | some m ↦ ltb (length r.buckets) m ]
]

module _ (now : ℕ) (key : String) (cost : ℕ) (r : RateLimiter) where
  evict-roomy : get r.buckets key ≡ none → roomy r key ≡ true → evict r ≡ some r.buckets
  unfolding roomy evict
  evict-roomy miss h = elim (Option-cases r.max_buckets) [
    | inl e ↦ rw (e, evict)
    | inr (m, e) ↦ rw (e, evict) (make_room_fits m r.buckets (ground arith))
  ]

  checkout-roomy : roomy r key ≡ true → checkout r now key ≡ some (bucket_of r now key, r.buckets)
  unfolding checkout bucket_of
  checkout-roomy h = elim (Option-cases (get r.buckets key)) [
    | inl miss ↦ rw (miss, checkout, bucket_of) (rw (evict-roomy miss h))
    | inr (b, hit) ↦ rw (hit, checkout, bucket_of)
  ]

  -- With room the call answers for the key's bucket and leaves all the others where they are.
  pub allow-roomy :
      roomy r key ≡ true
      → allow now key cost r
        ≡ some (
          (bucket_allow now cost (bucket_of r now key)).0,
          record r {
            buckets = set_last r.buckets key (bucket_allow now cost (bucket_of r now key)).1;
          },
        )
  unfolding allow
  allow-roomy h = rw (checkout-roomy h, allow)

-- what a limiter's memory is bounded by
abbrev pub IsBounded : RateLimiter → Type 0
IsBounded r = (m : ℕ) → r.max_buckets ≡ some m → length r.buckets ≤ m

module _ (now : ℕ) (key : String) (r : RateLimiter) where
  checkout_bound :
      (m : ℕ) (b b' : TokenBucket) (kept : OrderedDict TokenBucket)
      → r.max_buckets ≡ some m
      → length r.buckets ≤ m
      → checkout r now key ≡ some (b, kept)
      → length (set_last kept key b') ≤ m
  unfolding checkout evict
  checkout_bound m b b' kept e h ran = elim (Option-cases (get r.buckets key)) [
    | inl miss ↦
        ground (arith, length-set_last-le kept key b', length-make_room-lt m r.buckets kept)
    | inr (old, hit) ↦ ground (arith, length-set_last_hit r.buckets key old b')
  ]

-- A call that answers, either way, keeps the number of buckets within `max_buckets`.
pub allow-IsBounded :
    (now : ℕ) (key : String) (cost : ℕ) (r : RateLimiter) {granted : Bool} {r' : RateLimiter}
    → allow now key cost r ≡ some (granted, r')
    → IsBounded r
    → IsBounded r'
unfolding allow
allow-IsBounded now key cost r {r' = r'} ran h m e = elim (Option-cases (checkout r now key)) [
  | inl error ↦ absurd (ground arith)
  | inr ((b, kept), taken) ↦
      ground (arith, h m, checkout_bound now key r m b (bucket_allow now cost b).1 kept)
]
