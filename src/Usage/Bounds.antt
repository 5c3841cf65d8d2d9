-- ===== src/Usage/Bounds.antt =====
-- How long the queue and the batch become.
use proofrail_evidence_api.Prelude.{
  refl, ◌≤◌, ◌<◌, ◌≡◌, arith, List, [], ◌∷◌, length, length-append, Bool-cases, inl, inr,
}
use proofrail_evidence_api.Retention.{UsageEvent}
use proofrail_evidence_api.Usage.{
  FlusherSettings, Flusher, Turn, Move, request, turn, is_full, put_usage, flush_batch, flush,
  get_first, is_due, flush_if_due, take_turn, move, run_flusher,
}

abbrev pub FitsIn : FlusherSettings → Flusher → Type 0
FitsIn cfg s = (length s.queue ≤ cfg.maxsize) × (length s.batch < cfg.batch_size)

module _ (cfg : FlusherSettings) (few : 1 ≤ cfg.batch_size) where
  flush_batch-FitsIn :
      (t : Turn) (bs : List UsageEvent) (s : Flusher)
      → length s.queue ≤ cfg.maxsize
      → length s.batch ≡ length bs
      → FitsIn cfg (flush_batch t bs s)
  flush_batch-FitsIn t [] s room e = (room, omega (arith, e, few))
  flush_batch-FitsIn t (ev ∷ evs) s room e = (room, omega (arith, few))

  flush_if_due-FitsIn :
      (t : Turn) (s : Flusher) → length s.queue ≤ cfg.maxsize → FitsIn cfg (flush_if_due cfg t s)
  unfolding flush
  flush_if_due-FitsIn t s room = elim (Bool-cases (is_due cfg t.now s)) [
    | inl e ↦ rw e (flush_batch-FitsIn t s.batch s room refl)
    | inr e ↦ rw e (room, grind (arith, e))
  ]

  get_first-queue :
      (q : List UsageEvent) (s : Flusher)
      → s.queue ≡ q
      → length s.queue ≤ cfg.maxsize
      → length (get_first q s).queue ≤ cfg.maxsize
  get_first-queue [] s e room = room
  get_first-queue (ev ∷ evs) s e room =
      let shorter : length (ev ∷ evs) ≤ cfg.maxsize = rw e at room in omega (arith, shorter)

  move-FitsIn :
      (m : Move) (s : Flusher) → 1 ≤ cfg.maxsize → FitsIn cfg s → FitsIn cfg (move cfg m s)
  unfolding move put_usage take_turn
  move-FitsIn (turn t) s some_room h =
      flush_if_due-FitsIn t (get_first s.queue s) (get_first-queue s.queue s refl h.0)
  move-FitsIn (request ev) s some_room h = elim (Bool-cases (is_full cfg.maxsize s.queue)) [
    | inl e ↦ rw e h
    | inr e ↦ rw e (grind (arith, e, some_room, length-append s.queue (ev ∷ [])), h.1)
  ]

-- With a bounded queue and batches of at least one event, every run keeps the queue within its bound
-- and, between turns of the loop, the batch below its size, whether insertions succeed or not.
pub run_flusher-FitsIn :
    (cfg : FlusherSettings) (ms : List Move) (s : Flusher)
    → 1 ≤ cfg.maxsize
    → 1 ≤ cfg.batch_size
    → FitsIn cfg s
    → FitsIn cfg (run_flusher cfg ms s)
unfolding run_flusher
run_flusher-FitsIn cfg [] s some_room few h = h
run_flusher-FitsIn cfg (m ∷ ms) s some_room few h =
    run_flusher-FitsIn cfg ms (move cfg m s) some_room few (move-FitsIn cfg few m s some_room h)
