-- ===== src/Retention/Kept.antt =====
-- What a retention run leaves alone.
use proofrail_evidence_api.Prelude.{
  leb, none, ◌||◌, ℕ, Bool, true, false, not, ◌&&◌, List, [], ◌∷◌, ◌≡◌, refl, arith, filter, any,
  ltb, Bool-cases, inl, inr,
}
use proofrail_evidence_api.Table.{delete_where}
use proofrail_evidence_api.Jobs.{Job, Jobs, done, failed, is_pending, status_eq, delete_jobs_before}
use proofrail_evidence_api.Evidence.{Codec}
use proofrail_evidence_api.Retention.{
  in_root, RawFile, gc_raw_fetches, UsageEvent, delete_usage_events_before, RetentionSettings,
  Stored, days_before, run_retention_gc,
}

filter-delete {ℓ} :
    {A : Type ℓ} (p hit : A → Bool) (xs : List A)
    → ((x : A) → p x ≡ true → hit x ≡ false)
    → filter p (filter (λ x. not (hit x)) xs) ≡ filter p xs
filter-delete p hit [] apart = refl
filter-delete p hit (x ∷ xs) apart = elim (Bool-cases (p x)) [
  | inl e ↦ ground (arith, e, apart x e, filter-delete p hit xs apart)
  | inr e ↦ ground (arith, e, filter-delete p hit xs apart)
]

-- a job that is pending, or was touched since the cutoff
abbrev pub pending_or_recent : ℕ → Job → Bool
pending_or_recent cutoff j = is_pending j.status || leb cutoff j.updated_at

delete_jobs_before-kept :
    (cutoff : ℕ) (t : Jobs)
    → filter (pending_or_recent cutoff) (delete_jobs_before cutoff (done ∷ failed ∷ []) t).1.rows
      ≡ filter (pending_or_recent cutoff) t.rows
unfolding delete_jobs_before delete_where
delete_jobs_before-kept cutoff t =
    filter-delete (pending_or_recent cutoff)
      (λ j. ltb j.updated_at cutoff && any (status_eq j.status) (done ∷ failed ∷ [])) t.rows
      (λ j h. ground (arith, h))

-- an event since the cutoff
abbrev pub recent_event : ℕ → UsageEvent → Bool
recent_event cutoff e = leb cutoff e.ts

delete_usage_events_before-kept :
    (cutoff : ℕ) (t : List UsageEvent)
    → filter (recent_event cutoff) (delete_usage_events_before cutoff t).1
      ≡ filter (recent_event cutoff) t
unfolding delete_usage_events_before delete_where
delete_usage_events_before-kept cutoff t =
    filter-delete (recent_event cutoff) (λ (e : UsageEvent). ltb e.ts cutoff) t
      (λ e h. ground (arith, h))

-- a raw file since the cutoff
abbrev pub recent_file : ℕ → RawFile → Bool
recent_file cutoff f = leb cutoff f.mtime

gc_raw_fetches-kept :
    (cutoff : ℕ) (files : List RawFile)
    → filter (recent_file cutoff) (gc_raw_fetches cutoff none files).1
      ≡ filter (recent_file cutoff) files
unfolding gc_raw_fetches delete_where
gc_raw_fetches-kept cutoff files =
    filter-delete (recent_file cutoff) (λ f. in_root none f && not (leb cutoff f.mtime)) files
      (λ f h. ground (arith, h))

-- A retention run deletes no pending job and no job that was updated since the jobs' cutoff, no usage
-- event since the events' cutoff, and no raw file since the evidence's cutoff.
pub run_retention_gc_keeps :
    {B : Type 0} (c : Codec B) (cfg : RetentionSettings) (now : ℕ) (s : Stored B)
    → (filter
          (pending_or_recent (days_before now cfg.jobs_retention_days))
          (run_retention_gc c cfg now s).jobs.rows
        ≡ filter (pending_or_recent (days_before now cfg.jobs_retention_days)) s.jobs.rows)
      × (filter
            (recent_event (days_before now cfg.usage_retention_days))
            (run_retention_gc c cfg now s).usage
          ≡ filter (recent_event (days_before now cfg.usage_retention_days)) s.usage)
      × (filter
            (recent_file (days_before now cfg.evidence_retention_days))
            (run_retention_gc c cfg now s).raw
          ≡ filter (recent_file (days_before now cfg.evidence_retention_days)) s.raw)
unfolding run_retention_gc
run_retention_gc_keeps c cfg now s = (
  delete_jobs_before-kept (days_before now cfg.jobs_retention_days) s.jobs,
  delete_usage_events_before-kept (days_before now cfg.usage_retention_days) s.usage,
  gc_raw_fetches-kept (days_before now cfg.evidence_retention_days) s.raw,
)
