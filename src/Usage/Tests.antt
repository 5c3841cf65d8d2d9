-- ===== src/Usage/Tests.antt =====
-- Runs of the flusher with batches of two.
use proofrail_evidence_api.Prelude.{ℕ, ◌≡◌, refl, ◌++◌, [], ◌∷◌, none, true, arith, List}
use proofrail_evidence_api.Retention.{UsageEvent, insert_usage_events}
use proofrail_evidence_api.Usage.{
  FlusherSettings, Flusher, Turn, Move, request, turn, put_usage, flush, take_turn, move,
  run_flusher, usage_flusher_loop,
}
use proofrail_evidence_api.Usage.Order.{usage_flusher_loop-keeps}
use proofrail_evidence_api.Usage.Bounds.{FitsIn, run_flusher-FitsIn}

abbrev cfg : FlusherSettings
cfg = record { maxsize = 2; batch_size = 2; flush_interval = 1000 }

abbrev served : ℕ → UsageEvent
served ts = record {
  ts = ts;
  api_key_id = "k";
  customer_id = "acme";
  route = "/v2/cases";
  status_code = 200;
  request_id = none;
}

abbrev start : Flusher
start = record { queue = []; batch = []; last_flush = 0; usage = []; dropped = 0; flushed = 0 }

abbrev at : ℕ → Turn
at now = record { now = now; flushed_at = now; inserts = true }

-- two turns write a batch; a third event is taken, and a fourth is in the queue when it ends
abbrev moves : List Move
moves =
    request (served 1)
    ∷ request (served 2)
    ∷ turn (at 10)
    ∷ turn (at 20)
    ∷ request (served 3)
    ∷ request (served 4)
    ∷ turn (at 30)
    ∷ []

program : Unit {0}
unfolding insert_usage_events put_usage flush take_turn move run_flusher usage_flusher_loop
program = tt

abbrev end : Flusher
end = usage_flusher_loop cfg moves (at 40) start

left_in_queue : end.queue ≡ served 4 ∷ []
unfolding program
left_in_queue = refl

-- a third event finds the queue full
one_dropped :
    (run_flusher cfg
      (request (served 1) ∷ request (served 2) ∷ request (served 3) ∷ [])
      start).dropped
    ≡ 1
unfolding program
one_dropped = refl

usage_flusher_loop-keeps_example :
    end.usage ++ end.queue ≡ served 1 ∷ served 2 ∷ served 3 ∷ served 4 ∷ []
unfolding program
usage_flusher_loop-keeps_example =
    usage_flusher_loop-keeps cfg moves (at 40) start
      (tt, (tt, (refl, (refl, (tt, (tt, (refl, tt))))))) refl refl

run_flusher-FitsIn_example : FitsIn cfg (run_flusher cfg moves start)
run_flusher-FitsIn_example =
    run_flusher-FitsIn cfg moves start (omega arith) (omega arith) (omega arith, omega arith)
