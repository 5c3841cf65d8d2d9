-- ===== src/RateLimit/Tests.antt =====
-- The rate limiter at concrete calls: 60000 units make a token, a tick is a millisecond.
use proofrail_evidence_api.Prelude.{
  ◌+◌, ◌-◌, ◌*◌, ◌≤◌, ◌≡◌, refl, true, none, some, List, [], ◌∷◌, arith,
}
use proofrail_evidence_api.OrderedDict.{get, make_room, set_last}
use proofrail_evidence_api.RateLimit.{
  TokenBucket, RateLimiter, bucket_allow, allow, checkout, evict, fresh_bucket,
}
use proofrail_evidence_api.RateLimit.Bucket.{run_bucket}
use proofrail_evidence_api.RateLimit.Limiter.{IsBounded, roomy}
use proofrail_evidence_api.RateLimit.Isolation.{
  Call, granted_to, calls_of, never_evicts, granted_to-run_bucket, granted_to_rate, after,
}

-- two tokens, one a second
abbrev two : TokenBucket
two = record { capacity = 120000; refill_per_tick = 60; tokens = 120000; updated_at = 0 }

burst : (run_bucket ((0, 60000) ∷ (10, 60000) ∷ (20, 60000) ∷ (1020, 60000) ∷ []) two).0 ≡ 180000
unfolding run_bucket bucket_allow
burst = refl

-- one bucket at most
abbrev tight : RateLimiter
tight = record {
  capacity = 120000;
  refill_per_tick = 60;
  max_buckets = some 1;
  buckets = ("a", two) ∷ [];
}

-- the bucket of "b", after its first call
abbrev spent : RateLimiter
spent = record tight { buckets = ("b", record two { tokens = 60000; updated_at = 5 }) ∷ [] }

evicts : allow 5 "b" 60000 tight ≡ some (true, spent)
unfolding allow checkout evict fresh_bucket bucket_allow make_room set_last get
evicts = refl

tight-IsBounded : IsBounded tight
tight-IsBounded m e = ground arith

-- with no bucket allowed at all, the first call raises
no_room : allow 0 "a" 60000 (record tight { max_buckets = some 0; buckets = [] }) ≡ none
unfolding allow checkout evict make_room get
no_room = refl

abbrev mixed : List Call
mixed =
    record { now = 0; key = "a"; cost = 60000 }
    ∷ record { now = 1; key = "b"; cost = 60000 }
    ∷ record { now = 2; key = "a"; cost = 60000 }
    ∷ record { now = 3; key = "a"; cost = 60000 }
    ∷ []

abbrev limiter : RateLimiter
limiter = record { capacity = 120000; refill_per_tick = 60; max_buckets = some 2; buckets = [] }

abbrev with_a : RateLimiter
with_a = record limiter { buckets = ("a", two) ∷ [] }

granted_to-run_bucket_example :
    granted_to "a" mixed with_a ≡ (run_bucket (calls_of "a" mixed) two).0
unfolding never_evicts roomy after allow checkout evict fresh_bucket bucket_allow make_room set_last
    get
granted_to-run_bucket_example = granted_to-run_bucket "a" mixed with_a two refl refl

granted_to_rate_example : granted_to "a" mixed limiter ≤ 120000 + (3 - 0) * 60
unfolding never_evicts roomy after allow checkout evict fresh_bucket bucket_allow make_room set_last
    get calls_of
granted_to_rate_example = granted_to_rate "a" mixed limiter 0 3 refl refl (omega arith)
