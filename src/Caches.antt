-- ===== src/Caches.antt =====
-- The in-process caches: `ScreenCache` of ProofRail/service/state.py, `NameSetCache` of
-- ProofRail/service/screening.py, and the table of `IngestionCache` of ProofRail/service/cache.py
-- (its single-flight protocol is Caches/Flight.antt). Each method runs under the object's lock, so
-- a call is one step on the state.
pub mod Laws
pub mod Flight
mod Tests
use proofrail_evidence_api.Prelude.{ℕ, ◌-◌, String, Option, none, some, ltb, if◌then◌else◌}
use proofrail_evidence_api.OrderedDict
use proofrail_evidence_api.OrderedDict.{OrderedDict, set_last, trim}

-- `ScreenCache` (of pack ids) and the `_lru` of `NameSetCache` (of decoded name sets)
pub record LruCache {ℓ} (V : Type ℓ) : Type ℓ where
  pub max_entries : ℕ
  pub entries : OrderedDict V

module _ {ℓ} {V : Type ℓ} where
  -- `ScreenCache.get`: a hit moves to the end
  unfoldable pub get : String → LruCache V → Option V × LruCache V
  get key c = elim (OrderedDict.get c.entries key) [
    | none ↦ (none, c)
    | some v ↦ (some v, record c { entries = set_last c.entries key v })
  ]

  -- `ScreenCache.set`
  unfoldable pub set : String → V → LruCache V → LruCache V
  set key value c = record c { entries = trim c.max_entries (set_last c.entries key value) }

  -- `NameSetCache.get`: `load` reads and decodes a blob, and raises (`none`) if it is not there
  unfoldable pub get_or_load : (String → Option V) → String → LruCache V → Option V × LruCache V
  get_or_load load key c = elim (OrderedDict.get c.entries key) [
    | some v ↦ (some v, record c { entries = set_last c.entries key v })
    | none ↦ elim (load key) [ none ↦ (none, c) | some v ↦ (some v, set key v c) ]
  ]

pub record CacheEntry {ℓ} (A : Type ℓ) : Type ℓ where
  pub artifact : A
  pub stored_at : ℕ

pub record IngestionCache {ℓ} (A : Type ℓ) : Type ℓ where
  pub ttl_seconds : ℕ
  pub entries : OrderedDict (CacheEntry A)

module _ {ℓ} {A : Type ℓ} where
  -- the test of `IngestionCache.get` on the entry that it found
  unfoldable pub fresh : ℕ → ℕ → Option (CacheEntry A) → Option A
  fresh ttl now none = none
  fresh ttl now (some e) = if ltb ttl (now - e.stored_at) then none else some e.artifact

  -- `IngestionCache.get`
  unfoldable pub cached : ℕ → String → IngestionCache A → Option A
  unfolding fresh
  cached now customer_id c = fresh c.ttl_seconds now (OrderedDict.get c.entries customer_id)

  -- `IngestionCache.put`
  unfoldable pub put : ℕ → String → A → IngestionCache A → IngestionCache A
  put now customer_id artifact c = record c {
    entries =
        OrderedDict.set c.entries customer_id (record { artifact = artifact; stored_at = now });
  }
