-- ===== src/Kubelet/Fetch/Readable.antt =====
-- Which nodes can be read, and that fetching them one after the other succeeds exactly for those.
use pvc_chonker.Prelude.{
  String, Option, List, [], ◌∷◌, Dict, ok, err, ◌≡◌, refl, arith, All, Any, inl, inr, Result-cases,
}
use pvc_chonker.Libs.{Libs}
use pvc_chonker.Kubelet.Cache.{MetricsCache}
use pvc_chonker.Kubelet.Collector.{MetricsCollector, Requests}
use pvc_chonker.Kubelet.Fetch.{
  Sample, FetchError, store_families, node_families, fetch_node_metrics, fetch_nodes,
}

module _ {F Q S R : Type 0} (lib : Libs F Q S) (requests : Requests R) (mc : MetricsCollector)
    (text_to_metric_families : String → Option (Dict (List (Sample F)))) where
  abbrev pub HasFailed : FetchError → String → Type 0
  HasFailed e node = node_families lib requests mc text_to_metric_families node ≡ err e

  abbrev pub IsReadable : String → Type 0
  IsReadable node =
      (families : Dict (List (Sample F))) × (node_families lib requests mc text_to_metric_families
          node
        ≡ ok families)

  pub fetch_nodes-IsReadable :
      (nodes : List String) (cache after : MetricsCache F)
      → fetch_nodes lib requests mc text_to_metric_families nodes cache ≡ ok after
      → All IsReadable nodes
  unfolding fetch_nodes fetch_node_metrics
  fetch_nodes-IsReadable [] cache after e = tt
  fetch_nodes-IsReadable (node ∷ nodes) cache after e =
      elim (Result-cases (node_families lib requests mc text_to_metric_families node)) [
        | inl (failure, failed) ↦ absurd (ground arith)
        | inr (families, read) ↦ (
          (families, read),
          fetch_nodes-IsReadable nodes (store_families lib families cache) after (ground arith),
        )
      ]

  pub fetch_nodes-ok :
      (nodes : List String) (cache : MetricsCache F)
      → All IsReadable nodes
      → (after : MetricsCache F) × (fetch_nodes lib requests mc text_to_metric_families nodes cache
          ≡ ok after)
  unfolding fetch_nodes fetch_node_metrics
  fetch_nodes-ok [] cache h = (cache, refl)
  fetch_nodes-ok (node ∷ nodes) cache ((families, read), h) =
      let (after, e) = fetch_nodes-ok nodes (store_families lib families cache) h in
      (after, ground arith)

  pub fetch_nodes-failed :
      (nodes : List String) (cache : MetricsCache F) (e : FetchError)
      → fetch_nodes lib requests mc text_to_metric_families nodes cache ≡ err e
      → Any (HasFailed e) nodes
  unfolding fetch_nodes fetch_node_metrics
  fetch_nodes-failed [] cache e h = cc
  fetch_nodes-failed (node ∷ nodes) cache e h =
      elim (Result-cases (node_families lib requests mc text_to_metric_families node)) [
        | inl (failure, failed) ↦ inl (ground arith)
        | inr (families, read) ↦
            inr (fetch_nodes-failed nodes (store_families lib families cache) e (ground arith))
      ]
