-- ===== src/Caches/Tests.antt =====
-- The caches at concrete states, and two threads that refresh one key.
use proofrail_evidence_api.Caches.Flight.Exclusion.{single_flight}
use proofrail_evidence_api.Caches.Flight.Deadlock.{Reach-trans, waits, waiter_never_returns}
use proofrail_evidence_api.Prelude.{true, ℕ, String, ◌≡◌, refl, false, none, some, [], ◌∷◌}
use proofrail_evidence_api.Caches.{LruCache, IngestionCache, fresh}
use proofrail_evidence_api.Caches.Flight.{
  wake, rereading, returned, finish, store, cleanup, fetch_ok, storing, move, idle, Flight, Reach,
  start, here, next, first_miss, become, wait, waiting, entering, fetching,
}

abbrev one : LruCache String
one = record { max_entries = 2; entries = ("k1", "p1") ∷ [] }

abbrev ingested : IngestionCache String
ingested = record { ttl_seconds = 3600; entries = [] }

-- thread 1 refreshes, thread 2 waits for it
abbrev busy : Flight String
busy = record {
  lock = none;
  refreshing = true;
  entry = none;
  pcs = move (move (move (move (λ _. idle) 1 entering) 2 entering) 1 fetching) 2 waiting;
}

start-busy : Reach 60 start busy
unfolding fresh
start-busy =
    next
      (next (next (next here (first_miss 1 0 refl refl refl)) (first_miss 2 0 refl refl refl))
        (become 1 refl refl refl))
      (wait 2 refl refl refl)

single_flight_example : ◌≡◌ {A = ℕ} 1 1 × (busy.refreshing ≡ true)
single_flight_example = single_flight {ttl = 60} {s = busy} 1 1 start-busy refl refl

-- thread 1 has put its artifact and returned, and thread 2 has woken
abbrev stuck : Flight String
stuck = record {
  lock = some 2;
  refreshing = false;
  entry = some (record { artifact = "lists"; stored_at = 7 });
  pcs =
      move
        (move (move (move busy.pcs 1 (storing "lists")) 1 (cleanup (some "lists"))) 1
          (returned "lists"))
        2 rereading;
}

busy-stuck : Reach 60 busy stuck
busy-stuck =
    next
      (next (next (next here (fetch_ok 1 "lists" refl)) (store 1 7 "lists" refl refl))
        (finish 1 (some "lists") refl refl))
      (wake 2 refl refl refl)

waiter_never_returns_example : waits (stuck.pcs 2) ≡ true
waiter_never_returns_example = waiter_never_returns 2 start-busy busy-stuck refl

start-stuck : Reach 60 start stuck
start-stuck = Reach-trans start-busy busy-stuck
