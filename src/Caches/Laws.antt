-- ===== src/Caches/Laws.antt =====
-- What the caches return, and how much they hold.
use proofrail_evidence_api.Prelude.{
  ℕ, suc, ◌-◌, ◌≤◌, ◌<◌, String, ◌≡◌, none, some, [], ◌∷◌, ◌++◌, arith, length, ltb, str_eq, eq_iff,
  eq_refl, if◌then◌else◌, Option-cases, inl, inr,
}
use proofrail_evidence_api.OrderedDict
use proofrail_evidence_api.OrderedDict.{
  OrderedDict, set_last, trim, remove, get-set_last, get-set, length-trim-le,
}
use proofrail_evidence_api.Caches.{LruCache, get, set, IngestionCache, cached, put}

module _ {ℓ} {V : Type ℓ} where
  -- `trim` drops from the front, so the last entry stays
  get-trim_last :
      (n : ℕ) (d : OrderedDict V) (k : String) (v : V)
      → OrderedDict.get d k ≡ none
      → OrderedDict.get (trim (suc n) (d ++ (k, v) ∷ [])) k ≡ some v
  unfolding trim OrderedDict.get
  get-trim_last n [] k v h = ground (arith, eq_refl k)
  get-trim_last n ((j, w) ∷ d) k v h =
      ground (arith, get-trim_last n d k v, OrderedDict.get-snoc d k k v, eq_refl k)

  -- `get` returns the stored value
  get-value : (k : String) (c : LruCache V) → (get k c).0 ≡ OrderedDict.get c.entries k
  unfolding get
  get-value k c = ground arith

  get-removed : (d : OrderedDict V) (k : String) → OrderedDict.get (remove d k) k ≡ none
  get-removed d k = rw (OrderedDict.get-remove d k k) (rw eq_refl)

  -- What was set is read back, if the cache holds anything at all.
  pub get-set_self :
      (k : String) (v : V) (c : LruCache V) → 0 < c.max_entries → (get k (set k v c)).0 ≡ some v
  unfolding set set_last
  get-set_self k v c h =
      let e : c.max_entries ≡ suc (c.max_entries - 1) = omega arith in
      rw (get-value k (set k v c), e)
        (get-trim_last (c.max_entries - 1) (remove c.entries k) k v (get-removed c.entries k))

  get-kept :
      (j k : String) (c : LruCache V)
      → OrderedDict.get (get k c).1.entries j ≡ OrderedDict.get c.entries j
  unfolding get
  get-kept j k c = elim (Option-cases (OrderedDict.get c.entries k)) [
    | inl miss ↦ rw (miss, get)
    | inr (v, hit) ↦ rw (hit, get) (ground (arith, eq_iff k j, get-set_last c.entries k j v))
  ]

  -- The cache never holds more than `max_entries`.
  pub length-set-le :
      (k : String) (v : V) (c : LruCache V) → length (set k v c).entries ≤ c.max_entries
  unfolding set
  length-set-le k v c = length-trim-le c.max_entries (set_last c.entries k v)

  -- While there is room, a `set` changes what is read at its own key only.
  pub get-set_room :
      (j k : String) (v : V) (c : LruCache V)
      → length c.entries < c.max_entries
      → (get j (set k v c)).0 ≡ (if str_eq k j then some v else (get j c).0)
  unfolding set
  get-set_room j k v c h =
      rw (get-value j (set k v c), get-value j c)
        (unfold set in
          rw
            (OrderedDict.trim_fits c.max_entries (set_last c.entries k v)
              (omega (arith, OrderedDict.length-set_last-le c.entries k v)))
            (get-set_last c.entries k j v))

module _ {ℓ} {A : Type ℓ} where
  -- An artifact is served for `ttl_seconds` after it was put, and not later; a put changes nothing
  -- at other keys.
  pub cached-put :
      (now later : ℕ) (k j : String) (a : A) (c : IngestionCache A)
      → cached later j (put now k a c) ≡ (
          if str_eq k j
          then (if ltb c.ttl_seconds (later - now) then none else some a)
          else cached later j c)
  unfolding cached put
  cached-put now later k j a c =
      rw (get-set c.entries k j (record { artifact = a; stored_at = now })) (ground arith)
