-- ===== src/Idempotency/Tests.antt =====
-- A handler that counts its runs, asked twice, and the witnesses.
use proofrail_evidence_api.Prelude.{
  ℕ, suc, String, Option, some, List, [], ◌∷◌, ◌≡◌, refl, ◌≢◌, eq_iff, arith,
}
use proofrail_evidence_api.Idempotency.{
  IdempotencyRecord, get_idempotency_record, put_idempotency_record, idempotency_key,
  idempotency_maybe_return, idempotency_store, Request, fresh, replay, serve, serve_fresh,
  serve_cached,
}
use proofrail_evidence_api.Idempotency.Replay.{after, retry_replays}

program : Unit {0}
unfolding get_idempotency_record put_idempotency_record idempotency_key idempotency_maybe_return
    idempotency_store serve serve_fresh serve_cached
program = tt

abbrev count : Request → ℕ → Option String × ℕ
count r n = (some "done", suc n)

abbrev strip : String → String
strip s = s

abbrev asked : String → Request
asked sha = record {
  customer_id = "c";
  scope = "POST /v2/screenings";
  header = some "k";
  request_sha = sha;
  now = 4;
}

abbrev start : ℕ × List IdempotencyRecord
start = (0, [])

answered : (serve strip count (asked "a") start).0 ≡ fresh "done"
unfolding program
answered = refl

runs_once : (after strip count (asked "a" ∷ asked "a" ∷ asked "b" ∷ []) start).0 ≡ 1
unfolding program
runs_once = refl

bodies_differ : ◌≢◌ {A = String} "a" "b"
bodies_differ same = ground (arith, (eq_iff "a" "b").1 same)

retry_replays_example :
    serve strip count
      (record (asked "a") { now = 9 })
      (after strip count (asked "b" ∷ []) (serve strip count (asked "a") start).1)
    ≡ (
      replay 200 "done",
      after strip count (asked "b" ∷ []) (serve strip count (asked "a") start).1,
    )
unfolding program
retry_replays_example =
    retry_replays strip count (asked "a") start "done" (asked "b" ∷ []) "k" 9 refl refl
