-- ===== src/Sanctions/Sources/Tests.antt =====
-- Runs of `fetch_source` and `compute_list_version`, with a hash that keeps the text.
use proofrail_evidence_api.Table.{insert_by, order_by}
use proofrail_evidence_api.Table.Order.{Distinct}
use mathlib.Core.List.{Permᴰ}
use proofrail_evidence_api.Screening.Names.{codes}
use proofrail_evidence_api.Sanctions.Sources.{
  by_source_id, SourceIngestion, Fetched, answered, raised, fetch_source, compute_list_version,
}
use proofrail_evidence_api.Sanctions.Sources.Version.{compute_list_version-Perm}
use proofrail_evidence_api.Prelude.{show, text_lt, [], ◌∷◌, String, ◌≡◌, refl}

program : Unit {0}
unfolding fetch_source compute_list_version show order_by insert_by text_lt
program = tt

abbrev ingestion : String → Fetched → SourceIngestion
ingestion source_id got = (fetch_source (λ b. "sha") (λ s. s) got source_id "url" "now" "run").0

version :
    compute_list_version
      (λ s. s)
      (ingestion "UN" (raised (codes "timeout")) ∷ ingestion "EU" (answered 404 (codes "x")) ∷ [])
      "now"
    ≡ "now|hash:EU:sha:http_error|UN:NONE:exception"
unfolding program
version = refl

order_free : (a b : SourceIngestion) → Permᴰ (a ∷ b ∷ []) (b ∷ a ∷ [])
order_free a b = Permᴰ.swap refl refl

abbrev un_source : SourceIngestion
un_source = ingestion "UN" (raised (codes "timeout"))

abbrev eu_source : SourceIngestion
eu_source = ingestion "EU" (answered 200 (codes "x"))

two_sources : Distinct by_source_id (un_source ∷ eu_source ∷ [])
unfolding program
two_sources = ((refl, tt), (tt, tt))

compute_list_version-Perm_example :
    compute_list_version (λ s. s) (un_source ∷ eu_source ∷ []) "now"
    ≡ compute_list_version (λ s. s) (eu_source ∷ un_source ∷ []) "now"
compute_list_version-Perm_example =
    compute_list_version-Perm (λ s. s) (un_source ∷ eu_source ∷ []) (eu_source ∷ un_source ∷ [])
      "now" (order_free un_source eu_source) two_sources
