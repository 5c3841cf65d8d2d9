-- ===== src/Caches/Flight/Deadlock.antt =====
-- The second `get` of `get_or_refresh` stands inside `with self._lock` and takes that lock again: a
-- thread that had to wait never comes back, and once one has woken, nobody else does.
use proofrail_evidence_api.Prelude.{
  ℕ, ◌≡◌, refl, sym, ap, ◌∙◌, Bool, true, false, some, arith, ◌==◌, ==_iff, inl, inr, Bool-cases,
}
use proofrail_evidence_api.Caches.Flight.{
  Pc, Flight, Step, Reach, here, next, start, move, waiting, rereading, returned, raised, first_hit,
  first_miss, become, wait, wait_again, wake, reread_hit, reread_miss, fetch_ok, fetch_error, store,
  finish, external,
}
use proofrail_evidence_api.Caches.Flight.Exclusion.{not-rereads, Reach-IsSound, IsSound}

pub Reach-trans :
    {A : Type 0} {ttl : ℕ} {s u v : Flight A} → Reach ttl s u → Reach ttl u v → Reach ttl s v
Reach-trans r here = r
Reach-trans r (next more step) = next (Reach-trans r more) step

module _ {A : Type 0} where
  -- the thread waits, or stands at the second `get`
  abbrev pub waits : Pc A → Bool
  waits waiting = true
  waits rereading = true
  waits _ = false

  -- the call is over
  abbrev pub is_over : Pc A → Bool
  is_over (returned a) = true
  is_over raised = true
  is_over _ = false

  -- a test of the threads' places, when thread `t` moves from `q` to `p`
  module _ (test : Pc A → Bool) (b : Bool) (pcs : ℕ → Pc A) (t u : ℕ) where
    move-kept :
        (p q : Pc A)
        → pcs t ≡ q
        → (test q ≡ b → test p ≡ b)
        → test (pcs u) ≡ b
        → test (move pcs t p u) ≡ b
    move-kept p q at keep h = elim (Bool-cases (t == u)) [
      | inl same ↦
          let e : pcs u ≡ q = ap pcs (sym ((==_iff t u).0 same)) ∙ at in rw same (keep (rw e at h))
      | inr other ↦ rw other h
    ]

  module _ {ttl : ℕ} (u : ℕ) where
    Step-waits :
        {s s' : Flight A}
        → Step ttl s s'
        → IsSound s
        → waits (s.pcs u) ≡ true
        → waits (s'.pcs u) ≡ true
    Step-waits {s} (first_hit t now a at free read) h w =
        move-kept waits true s.pcs t u _ _ at (λ e. cc) w
    Step-waits {s} (first_miss t now at free read) h w =
        move-kept waits true s.pcs t u _ _ at (λ e. cc) w
    Step-waits {s} (become t at free quiet) h w = move-kept waits true s.pcs t u _ _ at (λ e. cc) w
    Step-waits {s} (wait t at free busy) h w = move-kept waits true s.pcs t u _ _ at (λ e. refl) w
    Step-waits (wait_again t at free busy) h w = w
    Step-waits {s} (wake t at free quiet) h w = move-kept waits true s.pcs t u _ _ at (λ e. refl) w
    Step-waits (reread_hit t now a at free read) h w = absurd (not-rereads t h free at)
    Step-waits (reread_miss t now at free read) h w = absurd (not-rereads t h free at)
    Step-waits {s} (fetch_ok t a at) h w = move-kept waits true s.pcs t u _ _ at (λ e. cc) w
    Step-waits {s} (fetch_error t at) h w = move-kept waits true s.pcs t u _ _ at (λ e. cc) w
    Step-waits {s} (store t now a at free) h w = move-kept waits true s.pcs t u _ _ at (λ e. cc) w
    Step-waits {s} (finish t o at free) h w = move-kept waits true s.pcs t u _ _ at (λ e. cc) w
    Step-waits (external now a free) h w = w

    -- A call that has had to wait for another's refresh never ends: from then on, in every
    -- continuation, it still waits or stands at the second `get`.
    pub waiter_never_returns :
        {s s' : Flight A}
        → Reach ttl start s
        → Reach ttl s s'
        → waits (s.pcs u) ≡ true
        → waits (s'.pcs u) ≡ true
    waiter_never_returns r here w = w
    waiter_never_returns r (next more step) w =
        Step-waits step (Reach-IsSound (Reach-trans r more)) (waiter_never_returns r more w)

    -- with the lock taken for good, only `refresh_func` still moves
    Step-frozen :
        {s s' : Flight A}
        → Step ttl s s'
        → (k : ℕ) → s.lock ≡ some k
        → (s'.lock ≡ some k) × (is_over (s'.pcs u) ≡ is_over (s.pcs u))
    Step-frozen (first_hit t now a at free read) k l = absurd (ground arith)
    Step-frozen (first_miss t now at free read) k l = absurd (ground arith)
    Step-frozen (become t at free quiet) k l = absurd (ground arith)
    Step-frozen (wait t at free busy) k l = absurd (ground arith)
    Step-frozen (wait_again t at free busy) k l = (l, refl)
    Step-frozen (wake t at free quiet) k l = absurd (ground arith)
    Step-frozen (reread_hit t now a at free read) k l = absurd (ground arith)
    Step-frozen (reread_miss t now at free read) k l = absurd (ground arith)
    Step-frozen {s} (fetch_ok t a at) k l =
        (l, move-kept is_over (is_over (s.pcs u)) s.pcs t u _ _ at (λ e. e) refl)
    Step-frozen {s} (fetch_error t at) k l =
        (l, move-kept is_over (is_over (s.pcs u)) s.pcs t u _ _ at (λ e. e) refl)
    Step-frozen (store t now a at free) k l = absurd (ground arith)
    Step-frozen (finish t o at free) k l = absurd (ground arith)
    Step-frozen (external now a free) k l = absurd (ground arith)

    Reach-frozen :
        {s s' : Flight A}
        → Reach ttl s s'
        → (k : ℕ) → s.lock ≡ some k
        → (s'.lock ≡ some k) × (is_over (s'.pcs u) ≡ is_over (s.pcs u))
    Reach-frozen here k l = (l, refl)
    Reach-frozen (next more step) k l =
        let (held, same) = Reach-frozen more k l in
        let (held', same') = Step-frozen step k held in (held', same' ∙ same)

    -- Once a thread that waited has woken, it holds the lock for ever and no call of any thread ends
    -- any more.
    pub cache_deadlocks :
        {s s' : Flight A} (t : ℕ)
        → Reach ttl start s
        → s.pcs t ≡ rereading
        → Reach ttl s s'
        → (s'.lock ≡ some t) × (is_over (s'.pcs u) ≡ is_over (s.pcs u))
    cache_deadlocks t r at more = Reach-frozen more t ((Reach-IsSound r).held t (rw at))
