-- ===== src/Caches/Flight.antt =====
-- `IngestionCache.get_or_refresh` of ProofRail/service/cache.py: the single-flight protocol of the
-- threads that ask for one customer id, as a step relation. A step is what a thread does between two
-- points where it may have to wait for `self._lock`, which is a `threading.Lock`: it is taken only
-- when nobody holds it, its holder included. `cond.wait` gives the lock up while it waits.
pub mod Exclusion
pub mod Deadlock
use proofrail_evidence_api.Prelude.{
  ℕ, ◌≡◌, Bool, true, false, Option, none, some, ◌==◌, if◌then◌else◌,
}
use proofrail_evidence_api.Caches.{CacheEntry, fresh}

-- Where a thread is: at the call, past the first `get`, in `cond.wait`, at the second `get` (inside
-- `with self._lock`), in `refresh_func`, in `put`, at the `finally` block, back with an artifact, or
-- left by an exception of `refresh_func`.
pub data Pc (A : Type 0) : Type 0 where
  idle entering waiting rereading fetching : Pc A
  storing : A → Pc A
  cleanup : Option A → Pc A
  returned : A → Pc A
  raised : Pc A

pub record Flight (A : Type 0) : Type 0 where
  pub lock : Option ℕ
  pub refreshing : Bool
  pub entry : Option (CacheEntry A)
  pub pcs : ℕ → Pc A

module _ {A : Type 0} where
  abbrev pub move : (ℕ → Pc A) → ℕ → Pc A → ℕ → Pc A
  move pcs t pc u = if t == u then pc else pcs u

  -- how the `finally` block ends
  abbrev pub outcome : Option A → Pc A
  outcome none = raised
  outcome (some a) = returned a

  abbrev pub start : Flight A
  start = record { lock = none; refreshing = false; entry = none; pcs = λ _. idle }

-- One step of thread `t`; `now` is what its clock reads. `external` is a `put` by another caller.
pub data Step {A : Type 0} (ttl : ℕ) (s : Flight A) : Flight A → Type 0 where
  first_hit :
      (t now : ℕ) (a : A)
      → s.pcs t ≡ idle
      → s.lock ≡ none
      → fresh ttl now s.entry ≡ some a
      → Step ttl s (record s { pcs = move s.pcs t (returned a) })
  first_miss :
      (t now : ℕ)
      → s.pcs t ≡ idle
      → s.lock ≡ none
      → fresh ttl now s.entry ≡ none
      → Step ttl s (record s { pcs = move s.pcs t entering })
  become :
      (t : ℕ)
      → s.pcs t ≡ entering
      → s.lock ≡ none
      → s.refreshing ≡ false
      → Step ttl s (record s { refreshing = true; pcs = move s.pcs t fetching })
  wait :
      (t : ℕ)
      → s.pcs t ≡ entering
      → s.lock ≡ none
      → s.refreshing ≡ true
      → Step ttl s (record s { pcs = move s.pcs t waiting })
  wait_again : (t : ℕ) → s.pcs t ≡ waiting → s.lock ≡ none → s.refreshing ≡ true → Step ttl s s
  wake :
      (t : ℕ)
      → s.pcs t ≡ waiting
      → s.lock ≡ none
      → s.refreshing ≡ false
      → Step ttl s (record s { lock = some t; pcs = move s.pcs t rereading })
  reread_hit :
      (t now : ℕ) (a : A)
      → s.pcs t ≡ rereading
      → s.lock ≡ none
      → fresh ttl now s.entry ≡ some a
      → Step ttl s (record s { lock = none; pcs = move s.pcs t (returned a) })
  reread_miss :
      (t now : ℕ)
      → s.pcs t ≡ rereading
      → s.lock ≡ none
      → fresh ttl now s.entry ≡ none
      → Step ttl s (record s { lock = none; refreshing = true; pcs = move s.pcs t fetching })
  fetch_ok :
      (t : ℕ) (a : A)
      → s.pcs t ≡ fetching
      → Step ttl s (record s { pcs = move s.pcs t (storing a) })
  fetch_error :
      (t : ℕ) → s.pcs t ≡ fetching → Step ttl s (record s { pcs = move s.pcs t (cleanup none) })
  store :
      (t now : ℕ) (a : A)
      → s.pcs t ≡ storing a
      → s.lock ≡ none
      → Step ttl s (record s {
        entry = some (record { artifact = a; stored_at = now });
        pcs = move s.pcs t (cleanup (some a));
      })
  finish :
      (t : ℕ) (o : Option A)
      → s.pcs t ≡ cleanup o
      → s.lock ≡ none
      → Step ttl s (record s { refreshing = false; pcs = move s.pcs t (outcome o) })
  external :
      (now : ℕ) (a : A)
      → s.lock ≡ none
      → Step ttl s (record s { entry = some (record { artifact = a; stored_at = now }) })

pub data Reach {A : Type 0} (ttl : ℕ) (s : Flight A) : Flight A → Type 0 where
  here : Reach ttl s s
  next : {u v : Flight A} → Reach ttl s u → Step ttl u v → Reach ttl s v
