-- ===== src/Caches/Flight/Exclusion.antt =====
-- At most one thread refreshes at a time.
use proofrail_evidence_api.Prelude.{ℕ, ◌≡◌, refl, Bool, true, false, Option, none, some, arith}
use proofrail_evidence_api.Caches.Flight.{
  CacheEntry, Pc, Flight, Step, Reach, here, next, start, move, outcome, rereading, fetching,
  storing, cleanup, first_hit, first_miss, become, wait, wait_again, wake, reread_hit, reread_miss,
  fetch_ok, fetch_error, store, finish, external,
}

module _ {A : Type 0} where
  -- between the moment a thread enters itself in `_refreshing` and the moment it takes itself out
  abbrev pub refreshes : Pc A → Bool
  refreshes fetching = true
  refreshes (storing a) = true
  refreshes (cleanup o) = true
  refreshes _ = false

  abbrev pub rereads : Pc A → Bool
  rereads rereading = true
  rereads _ = false

pub record IsSound {A : Type 0} (s : Flight A) : Type 0 where
  pub one : (t u : ℕ) → refreshes (s.pcs t) ≡ true → refreshes (s.pcs u) ≡ true → t ≡ u
  pub noted : (t : ℕ) → refreshes (s.pcs t) ≡ true → s.refreshing ≡ true
  pub held : (t : ℕ) → rereads (s.pcs t) ≡ true → s.lock ≡ some t

module _ {A : Type 0} {s : Flight A} (t : ℕ) (h : IsSound s) where
  -- a step that neither begins nor ends a refresh, and does not take the lock
  moved-IsSound :
      (p : Pc A) (e : Option (CacheEntry A))
      → refreshes p ≡ refreshes (s.pcs t)
      → rereads p ≡ false
      → IsSound (record s { entry = e; pcs = move s.pcs t p })
  moved-IsSound p e same out = record {
    one = λ u v. ground (arith, h.one u v, h.one t u, h.one t v, h.one u t, h.one v t);
    noted = λ u. ground (arith, h.noted u, h.noted t);
    held = λ u. ground (arith, h.held u);
  }

  begun-IsSound :
      s.refreshing ≡ false → IsSound (record s { refreshing = true; pcs = move s.pcs t fetching })
  begun-IsSound quiet = record {
    one = λ u v. ground (arith, h.one u v, h.noted u, h.noted v);
    noted = λ u. ground (arith, h.noted u);
    held = λ u. ground (arith, h.held u);
  }

  woken-IsSound :
      s.lock ≡ none
      → s.refreshing ≡ false
      → IsSound (record s { lock = some t; pcs = move s.pcs t rereading })
  woken-IsSound free quiet = record {
    one = λ u v. ground (arith, h.one u v, h.noted u, h.noted v);
    noted = λ u. ground (arith, h.noted u);
    held = λ u. ground (arith, h.held u);
  }

  ended-IsSound :
      (o : Option A)
      → s.pcs t ≡ cleanup o
      → IsSound (record s { refreshing = false; pcs = move s.pcs t (outcome o) })
  ended-IsSound o at = record {
    one = λ u v. ground (arith, h.one u v);
    noted = λ u. ground (arith, h.one t u);
    held = λ u. ground (arith, h.held u);
  }

  pub not-rereads : s.lock ≡ none → s.pcs t ≡ rereading → ⊥
  not-rereads free at = ground (arith, h.held t)

start-IsSound : {A : Type 0} → IsSound (start {A = A})
start-IsSound = record {
  one = λ t u. ground arith;
  noted = λ t. ground arith;
  held = λ t. ground arith;
}

module _ {A : Type 0} {ttl : ℕ} where
  Step-IsSound : {s s' : Flight A} → Step ttl s s' → IsSound s → IsSound s'
  Step-IsSound {s} (first_hit t now a at free read) h = moved-IsSound t h _ s.entry (cc) refl
  Step-IsSound {s} (first_miss t now at free read) h = moved-IsSound t h _ s.entry (rw at) refl
  Step-IsSound (become t at free quiet) h = begun-IsSound t h quiet
  Step-IsSound {s} (wait t at free busy) h = moved-IsSound t h _ s.entry (rw at) refl
  Step-IsSound (wait_again t at free busy) h = h
  Step-IsSound (wake t at free quiet) h = woken-IsSound t h free quiet
  Step-IsSound (reread_hit t now a at free read) h = absurd (not-rereads t h free at)
  Step-IsSound (reread_miss t now at free read) h = absurd (not-rereads t h free at)
  Step-IsSound {s} (fetch_ok t a at) h = moved-IsSound t h _ s.entry (rw at) refl
  Step-IsSound {s} (fetch_error t at) h = moved-IsSound t h _ s.entry (rw at) refl
  Step-IsSound (store t now a at free) h = moved-IsSound t h _ _ (rw at) refl
  Step-IsSound (finish t o at free) h = ended-IsSound t h o at
  Step-IsSound (external now a free) h = record { one = h.one; noted = h.noted; held = h.held }

  pub Reach-IsSound : {s : Flight A} → Reach ttl start s → IsSound s
  Reach-IsSound here = start-IsSound
  Reach-IsSound (next r step) = Step-IsSound step (Reach-IsSound r)

  -- Single flight: however the threads interleave, two of them never refresh at the same time, and
  -- while one does the key stands in `_refreshing`.
  pub single_flight :
      {s : Flight A} (t u : ℕ)
      → Reach ttl start s
      → refreshes (s.pcs t) ≡ true
      → refreshes (s.pcs u) ≡ true
      → (t ≡ u) × (s.refreshing ≡ true)
  single_flight t u r ft fu = let h = Reach-IsSound r in (h.one t u ft fu, h.noted t ft)
