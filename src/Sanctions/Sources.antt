-- ===== src/Sanctions/Sources.antt =====
-- The retrieval of the lists and their version: `SourceIngestion`, `fetch_source` and
-- `compute_list_version` of ProofRail/sanctions_determinism.py. SHA-256 and the absolute path of a
-- file are parameters, and so is what a GET comes to.
pub mod Version
mod Tests
use Prim.Native.String.{◌++◌ as append}
use proofrail_evidence_api.Screening.Names.{Codes, codes}
use proofrail_evidence_api.Sanctions.Subjects.{decimal}
use proofrail_evidence_api.Table.{order_by}
use proofrail_evidence_api.Prelude.{
  ◌++◌, str_eq, ℕ, ◌==◌, Bool, String, Option, none, some, List, [], ◌∷◌, not, length,
  if◌then◌else◌, text_lt, map,
}

pub record SourceIngestion : Type 0 where
  pub source_id : String
  pub url : String
  pub status : String
  pub status_code : Option ℕ
  pub retrieval_ts : String
  pub content_sha256 : Option String
  pub bytes_len : ℕ
  pub output_file : Option String
  pub error : Option Codes
  pub ingestion_run_id : String
  pub transform_id : String
  pub model_version : String

abbrev transform : String
transform = "t_sanctions_determinism_v2"

abbrev model : String
model = "none"

-- what the body of the `try` comes to: an answer that is written to its file, or an exception of
-- the request or of the file with its text
pub data Fetched : Type 0 where
  answered : ℕ → Codes → Fetched
  raised : Codes → Fetched

module _ (sha256_bytes : Codes → String) (output_file : String → String) where
  -- content that is there
  abbrev pub retrieved :
      String → String → String → String → String → ℕ → Codes → Option Codes → SourceIngestion
  retrieved status source_id url retrieval_ts ingestion_run_id status_code content error = record {
    source_id = source_id;
    url = url;
    status = status;
    status_code = some status_code;
    retrieval_ts = retrieval_ts;
    content_sha256 = some (sha256_bytes content);
    bytes_len = length content;
    output_file = some (output_file source_id);
    error = error;
    ingestion_run_id = ingestion_run_id;
    transform_id = transform;
    model_version = model;
  }

  unfoldable pub fetch_source :
      Fetched → String → String → String → String → SourceIngestion × Option Codes
  fetch_source (answered status_code content) source_id url retrieval_ts ingestion_run_id =
      let ok = status_code == 200 in
      (
        retrieved (if ok then "ok" else "http_error") source_id url retrieval_ts ingestion_run_id
            status_code content (if ok then none else some (codes "HTTP_" ++ decimal status_code)),
        some content,
      )
  fetch_source (raised message) source_id url retrieval_ts ingestion_run_id = (
    record {
      source_id = source_id;
      url = url;
      status = "exception";
      status_code = none;
      retrieval_ts = retrieval_ts;
      content_sha256 = none;
      bytes_len = 0;
      output_file = none;
      error = some message;
      ingestion_run_id = ingestion_run_id;
      transform_id = transform;
      model_version = model;
    },
    none,
  )

-- `content_sha256 or 'NONE'`
abbrev pub sha_or_none : Option String → String
sha_or_none none = "NONE"
sha_or_none (some sha) = if str_eq sha "" then "NONE" else sha

abbrev pub material : SourceIngestion → String
material s =
    append s.source_id (append ":" (append (sha_or_none s.content_sha256) (append ":" s.status)))

-- `"|".join(parts)`
abbrev pub join_bars : List String → String
join_bars [] = ""
join_bars (p ∷ []) = p
join_bars (p ∷ q ∷ ps) = append p (append "|" (join_bars (q ∷ ps)))

abbrev pub by_source_id : SourceIngestion → SourceIngestion → Bool
by_source_id x y = text_lt y.source_id x.source_id

module _ (sha256_text : String → String) where
  unfoldable pub compute_list_version : List SourceIngestion → String → String
  compute_list_version ingestions retrieval_ts =
      let combined =
        sha256_text
          (join_bars (map material (order_by (λ x y. not (by_source_id x y)) ingestions))) in
      append retrieval_ts (append "|hash:" combined)
