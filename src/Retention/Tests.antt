-- ===== src/Retention/Tests.antt =====
-- One retention run, and the witness. Contents are texts, each its own hash.
use proofrail_evidence_api.Prelude.{ℕ, String, none, some, [], ◌∷◌, ◌≡◌, refl, length, filter}
use proofrail_evidence_api.OrderedDict
use proofrail_evidence_api.Table.{count_where, delete_where}
use proofrail_evidence_api.Json.{Json, text, object, member, no_member, get_member}
use proofrail_evidence_api.Jobs.{Job, JobStatus, queued, done, delete_jobs_before}
use proofrail_evidence_api.Evidence.{
  Codec, get_pack, get_blob, delete_packs_before, delete_unreferenced_blobs, is_garbage,
  referenced_blob_digests, digests_of, is_expired, file_digests, pack_digests, source_digests,
}
use proofrail_evidence_api.Retention.{
  RetentionSettings, Stored, delete_usage_events_before, gc_raw_fetches, run_retention_gc,
}
use proofrail_evidence_api.Retention.Kept.{
  recent_file, recent_event, pending_or_recent, run_retention_gc_keeps,
}

program : Unit {0}
unfolding OrderedDict.get count_where delete_where get_member delete_jobs_before get_pack get_blob
    delete_packs_before delete_unreferenced_blobs is_garbage referenced_blob_digests digests_of
    is_expired file_digests pack_digests source_digests delete_usage_events_before gc_raw_fetches
    run_retention_gc
program = tt

abbrev pack : Json
pack = object (
    member "created_at" (text "day 9") (
      member "ingestion" (object (member "normalized_name_sets_blob_sha256" (text "b") no_member))
        no_member))

abbrev codec : Codec String
codec = record {
  sha256_hex = λ b. b;
  canonical_json_bytes = λ j. "p";
  loads = λ b. some pack;
  fromisoformat = λ t. some 691200;
}

abbrev settings : RetentionSettings
settings = record { usage_retention_days = 2; evidence_retention_days = 2; jobs_retention_days = 2 }

abbrev job : ℕ → JobStatus → Job
job id status = record {
  job_id = id;
  job_type = "ingest_refresh";
  job_key = none;
  payload_json = none;
  status = status;
  attempt_count = 0;
  run_at = 0;
  last_error = none;
  created_at = 0;
  updated_at = 0;
  locked_until = none;
}

abbrev stored : Stored String
stored = record {
  usage = [];
  store = record {
    blobs =
        ("b", record { contents = "b"; mtime = 0 })
        ∷ ("x", record { contents = "x"; mtime = 0 })
        ∷ [];
    packs = ("p", "p") ∷ [];
  };
  raw = record { directory = "c"; mtime = 0 } ∷ [];
  jobs = record { rows = job 1 queued ∷ job 2 done ∷ []; next_id = 3 };
  audit = [];
}

-- on day 10 the old job, the raw file and the blob that no pack names go
one_run :
    (length (run_retention_gc codec settings 864000 stored).jobs.rows ≡ 1)
    × (length (run_retention_gc codec settings 864000 stored).store.blobs ≡ 1)
    × (length (run_retention_gc codec settings 864000 stored).raw ≡ 0)
unfolding program
one_run = (refl, refl, refl)

run_retention_gc_keeps_example :
    (filter (pending_or_recent 691200) (run_retention_gc codec settings 864000 stored).jobs.rows
      ≡ filter (pending_or_recent 691200) stored.jobs.rows)
    × (filter (recent_event 691200) (run_retention_gc codec settings 864000 stored).usage
        ≡ filter (recent_event 691200) stored.usage)
    × (filter (recent_file 691200) (run_retention_gc codec settings 864000 stored).raw
        ≡ filter (recent_file 691200) stored.raw)
run_retention_gc_keeps_example = run_retention_gc_keeps codec settings 864000 stored
