-- ===== src/Sanctions/Sources/Version.antt =====
-- The version of the lists does not depend on the order in which they were retrieved.
use Prim.Native.String.{◌++◌ as append}
use mathlib.Core.List.{Permᴰ}
use proofrail_evidence_api.Sanctions.Sources.{
  SourceIngestion, material, join_bars, by_source_id, compute_list_version,
}
use proofrail_evidence_api.Table.Order.{Distinct}
use proofrail_evidence_api.Table.Permuted.{order_by-Perm}
use proofrail_evidence_api.Prelude.{
  List, String, ◌≡◌, ap, map, text_lt-irreflexive, text_lt-transitive,
}

-- Retrievals of sources with different ids give one list version, in whatever order they come.
pub compute_list_version-Perm :
    (sha256_text : String → String) (ingestions others : List SourceIngestion)
    (retrieval_ts : String)
    → Permᴰ ingestions others
    → Distinct by_source_id ingestions
    → compute_list_version sha256_text ingestions retrieval_ts
      ≡ compute_list_version sha256_text others retrieval_ts
unfolding compute_list_version
compute_list_version-Perm sha256_text ingestions others retrieval_ts p d =
    ap (λ rows. append retrieval_ts (append "|hash:" (sha256_text (join_bars (map material rows)))))
      (order_by-Perm by_source_id (λ x. text_lt-irreflexive x.source_id)
        (λ x y z h k. text_lt-transitive z.source_id y.source_id x.source_id k h) ingestions others
        p d)
