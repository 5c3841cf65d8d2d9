-- ===== src/Retention.antt =====
-- Retention: the table `usage_events` of ProofRail/service/db.py, `_gc_raw_fetches` and
-- `_run_retention_gc` of ProofRail/service/worker.py. A step whose database or file call raises counts
-- nothing and the run goes on; that is not modelled. A raw file is known by the directory it was
-- fetched into and its time.
pub mod Kept
mod Tests
use proofrail_evidence_api.Prelude.{
  ℕ, ◌-◌, ◌*◌, String, Bool, true, false, not, ◌&&◌, Option, none, some, List, [], ◌∷◌, ◌++◌, ltb,
  leb, str_eq, if◌then◌else◌, filter, length,
}
use proofrail_evidence_api.Table.{count_where, delete_where}
use proofrail_evidence_api.Jobs.{Jobs, JobStatus, done, failed, delete_jobs_before}
use proofrail_evidence_api.Evidence.{
  Codec, EvidenceStore, delete_packs_before, delete_unreferenced_blobs,
}
use proofrail_evidence_api.Audit.{AuditEvent, insert_audit_event, number}
use proofrail_evidence_api.Worker.{or_else}

pub record UsageEvent : Type 0 where
  pub ts : ℕ
  pub api_key_id : String
  pub customer_id : String
  pub route : String
  pub status_code : ℕ
  pub request_id : Option String

-- `insert_usage_event` and `insert_usage_events`
unfoldable pub insert_usage_events : List UsageEvent → List UsageEvent → List UsageEvent
insert_usage_events events t = t ++ events

-- `delete_usage_events_before`, with its rowcount
unfoldable pub delete_usage_events_before : ℕ → List UsageEvent → ℕ × List UsageEvent
delete_usage_events_before ts t =
    let hit = λ (e : UsageEvent). ltb e.ts ts in (count_where hit t, delete_where hit t)

-- one route's entry of `usage_summary`
unfoldable pub usage_of_route : String → ℕ → String → List UsageEvent → ℕ
usage_of_route customer_id since_ts route t =
    count_where
      (λ (e : UsageEvent).
        str_eq e.customer_id customer_id && (leb since_ts e.ts && str_eq e.route route))
      t

pub record RawFile : Type 0 where
  pub directory : String
  pub mtime : ℕ

-- the files below `raw_dir / (customer_id or "")`
abbrev pub in_root : Option String → RawFile → Bool
in_root none f = true
in_root (some id) f = if str_eq id "" then true else str_eq f.directory id

-- `_gc_raw_fetches`
unfoldable pub gc_raw_fetches : ℕ → Option String → List RawFile → ℕ × List RawFile
gc_raw_fetches cutoff customer_id files =
    let hit = λ (f : RawFile). in_root customer_id f && not (leb cutoff f.mtime) in
    (count_where hit files, delete_where hit files)

pub record RetentionSettings : Type 0 where
  pub usage_retention_days : ℕ
  pub evidence_retention_days : ℕ
  pub jobs_retention_days : ℕ

pub record Stored (B : Type 0) : Type 0 where
  pub usage : List UsageEvent
  pub store : EvidenceStore B
  pub raw : List RawFile
  pub jobs : Jobs
  pub audit : List AuditEvent

-- `now_dt - timedelta(days=days)`
abbrev pub days_before : ℕ → ℕ → ℕ
days_before now days = now - days * 86400

module _ {B : Type 0} (c : Codec B) (cfg : RetentionSettings) where
  -- `_run_retention_gc`
  unfoldable pub run_retention_gc : ℕ → Stored B → Stored B
  run_retention_gc now s =
      let evidence_cutoff = days_before now cfg.evidence_retention_days in
      let (deleted_usage, usage) =
        delete_usage_events_before (days_before now cfg.usage_retention_days) s.usage in
      let (deleted_packs, store) = delete_packs_before c evidence_cutoff none false s.store in
      let (deleted_blobs, store') =
        delete_unreferenced_blobs c none (some evidence_cutoff) false store in
      let (deleted_raw, raw) = gc_raw_fetches evidence_cutoff none s.raw in
      let (deleted_jobs, jobs) =
        delete_jobs_before (days_before now cfg.jobs_retention_days) (done ∷ failed ∷ []) s.jobs in
      record {
        usage = usage;
        store = store';
        raw = raw;
        jobs = jobs;
        audit =
            insert_audit_event
              (record {
                ts = now;
                actor = "worker";
                action = "gc_run";
                request_id = none;
                details_json =
                    ("usage_retention_days", number cfg.usage_retention_days)
                    ∷ ("evidence_retention_days", number cfg.evidence_retention_days)
                    ∷ ("usage_events", number deleted_usage)
                    ∷ ("evidence_packs", number deleted_packs)
                    ∷ ("raw_fetch_files", number deleted_raw)
                    ∷ ("unreferenced_blobs", number deleted_blobs)
                    ∷ ("jobs", number deleted_jobs)
                    ∷ [];
              })
              s.audit;
      }
