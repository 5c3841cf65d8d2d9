-- ===== src/Usage.antt =====
-- The usage queue: what `request_log_and_limits` of ProofRail/service/middleware.py puts into it, and
-- `usage_flusher_loop` of ProofRail/service/state.py. Times are in milliseconds. A turn of the loop is
-- one step, which takes the event that is first in the queue at the end of its wait.
pub mod Order
pub mod Bounds
mod Tests
use proofrail_evidence_api.Prelude.{
  ℕ, ◌+◌, Bool, true, false, ◌||◌, ◌&&◌, List, [], ◌∷◌, ◌++◌, length, leb, if◌then◌else◌,
}
use proofrail_evidence_api.Retention.{UsageEvent, insert_usage_events}

pub record FlusherSettings : Type 0 where
  -- 0 is no limit, as in `queue.Queue`
  pub maxsize : ℕ
  pub batch_size : ℕ
  pub flush_interval : ℕ

-- the queue, the locals of the loop, the table and the counts of `UsageFlushStats`
pub record Flusher : Type 0 where
  pub queue : List UsageEvent
  pub batch : List UsageEvent
  pub last_flush : ℕ
  pub usage : List UsageEvent
  pub dropped : ℕ
  pub flushed : ℕ

-- a turn of the loop: the clock after the wait and after the insertion, and whether that succeeded
pub record Turn : Type 0 where
  pub now : ℕ
  pub flushed_at : ℕ
  pub inserts : Bool

-- `queue.Full`
abbrev pub is_full : ℕ → List UsageEvent → Bool
is_full maxsize queue = leb 1 maxsize && leb maxsize (length queue)

-- `put_nowait`
unfoldable pub put_usage : FlusherSettings → UsageEvent → Flusher → Flusher
put_usage cfg ev s =
    if is_full cfg.maxsize s.queue
    then record s { dropped = s.dropped + 1 }
    else record s { queue = s.queue ++ ev ∷ [] }

-- an insertion that fails loses the batch
abbrev pub flush_batch : Turn → List UsageEvent → Flusher → Flusher
flush_batch t [] s = s
flush_batch t (ev ∷ evs) s = record s {
  usage = if t.inserts then insert_usage_events (ev ∷ evs) s.usage else s.usage;
  flushed = if t.inserts then s.flushed + length (ev ∷ evs) else s.flushed;
  batch = [];
  last_flush = t.flushed_at;
}

unfoldable pub flush : Turn → Flusher → Flusher
flush t s = flush_batch t s.batch s

-- `q.get`, which times out on an empty queue
abbrev pub get_first : List UsageEvent → Flusher → Flusher
get_first [] s = s
get_first (ev ∷ evs) s = record s { queue = evs; batch = s.batch ++ ev ∷ [] }

-- the batch is full, or it is not empty and the interval is over
abbrev pub is_due : FlusherSettings → ℕ → Flusher → Bool
is_due cfg now s =
    leb cfg.batch_size (length s.batch)
    || (leb 1 (length s.batch) && leb (s.last_flush + cfg.flush_interval) now)

abbrev pub flush_if_due : FlusherSettings → Turn → Flusher → Flusher
flush_if_due cfg t s = if is_due cfg t.now s then flush t s else s

-- the body of the loop
unfoldable pub take_turn : FlusherSettings → Turn → Flusher → Flusher
take_turn cfg t s = flush_if_due cfg t (get_first s.queue s)

-- what happens while the service runs
pub data Move : Type 0 where
  request : UsageEvent → Move
  turn : Turn → Move

unfoldable pub move : FlusherSettings → Move → Flusher → Flusher
move cfg (request ev) s = put_usage cfg ev s
move cfg (turn t) s = take_turn cfg t s

unfoldable pub run_flusher : FlusherSettings → List Move → Flusher → Flusher
run_flusher cfg [] s = s
run_flusher cfg (m ∷ ms) s = run_flusher cfg ms (move cfg m s)

-- `usage_flusher_loop` until `stop` is set, and its last flush
unfoldable pub usage_flusher_loop : FlusherSettings → List Move → Turn → Flusher → Flusher
usage_flusher_loop cfg ms last s = flush last (run_flusher cfg ms s)
