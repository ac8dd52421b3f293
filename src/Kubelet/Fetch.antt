-- ===== src/Kubelet/Fetch.antt =====
-- GetAllVolumeMetrics of pkg/kubelet/cache.go: the samples of each node, stored in a new cache. The
-- Prometheus text parser, which gives the metric families of a text by name, is a parameter. The
-- goroutines of the nodes are taken one after the other here; Interleaved has them in any order.
pub mod Nodes
pub mod Interleaved
pub mod Stored
pub mod Readable
pub mod Group
use Prim.Native.String.{[], ◌∷◌}
use pvc_chonker.Prelude.{
  String, Bool, not, ◌&&◌, Option, none, some, List, Dict, lookup, Result, ok, err, ◌>>=◌, or_else,
  wrap_err, ◌==◌, if◌then◌else◌,
}
use pvc_chonker.Prelude.Int.{ℤ}
use pvc_chonker.Kube.{NamespacedName, ApiError}
use pvc_chonker.Libs.{Libs}
use pvc_chonker.Kubelet.Collector.{MetricsCollector, Requests, RequestError, request_metrics}
use pvc_chonker.Kubelet.Cache.{
  MetricsCache, Field, capacity, available, inodes, inodes_used, set_field, new_metrics_cache,
  calculate_usage_percentages,
}

-- A metric of a family: its labels and the value of its gauge.
pub record Sample (F : Type 0) : Type 0 where
  pub labels : List (String × String)
  pub gauge : F

-- Why GetAllVolumeMetrics fails: the List call, no nodes, the request to a node, or its text.
pub data FetchError : Type 0 where
  list_nodes_failed : ApiError → FetchError
  no_nodes : FetchError
  request_failed : String → RequestError → FetchError
  parse_failed : String → FetchError

-- the loop over the labels, on the name that was read so far
name_from : NamespacedName → List (String × String) → NamespacedName
name_from name List.[] = name
name_from name (List.◌∷◌ (label, value) labels) =
    name_from
      (if label == "namespace"
        then record name { namespace = value }
        else if label == "persistentvolumeclaim"
        then record name { name = value }
        else name)
      labels

module _ {F Q S : Type 0} (lib : Libs F Q S) where
  unfoldable pub parse_metric : Sample F → NamespacedName × ℤ
  unfolding name_from
  parse_metric sample =
      (name_from (record { namespace = ""; name = "" }) sample.labels, lib.to_int sample.gauge)

  -- pvcName.Name != "" && pvcName.Namespace != ""
  unfoldable pub is_named : NamespacedName → Bool
  is_named name = not (name.name == "") && not (name.namespace == "")

  -- the loop over the metrics of one family
  unfoldable pub store_samples : Field → List (Sample F) → MetricsCache F → MetricsCache F
  store_samples field List.[] cache = cache
  store_samples field (List.◌∷◌ sample samples) cache =
      let (name, value) = parse_metric sample in
      store_samples field samples
        (if is_named name then set_field lib field cache name value else cache)

  -- one of the four blocks
  unfoldable pub store_family :
      Field → String → Dict (List (Sample F)) → MetricsCache F → MetricsCache F
  store_family field family families cache = elim (lookup family families) [
    | none ↦ cache
    | some samples ↦ store_samples field samples cache
  ]

  -- fetchNodeMetrics below the parser
  unfoldable pub store_families : Dict (List (Sample F)) → MetricsCache F → MetricsCache F
  store_families families cache =
      store_family inodes_used "kubelet_volume_stats_inodes_used" families (
        store_family inodes "kubelet_volume_stats_inodes" families (
          store_family available "kubelet_volume_stats_available_bytes" families
            (store_family capacity "kubelet_volume_stats_capacity_bytes" families cache)))

  module _ {R : Type 0} (requests : Requests R) (mc : MetricsCollector)
      (text_to_metric_families : String → Option (Dict (List (Sample F)))) where
    -- what a node reports: the request, and the parser on its body
    unfoldable pub node_families : String → Result FetchError (Dict (List (Sample F)))
    node_families node = do
      body ← wrap_err (request_failed node) (request_metrics requests mc node)
      or_else (text_to_metric_families body) (parse_failed node)

    unfoldable pub fetch_node_metrics : String → MetricsCache F → Result FetchError (MetricsCache F)
    fetch_node_metrics node cache = do
      families ← node_families node
      ok (store_families families cache)

    -- the nodes, one after the other; any error is the result
    unfoldable pub fetch_nodes : List String → MetricsCache F → Result FetchError (MetricsCache F)
    fetch_nodes List.[] cache = ok cache
    fetch_nodes (List.◌∷◌ node nodes) cache = do
      stored ← fetch_node_metrics node cache
      fetch_nodes nodes stored

    unfoldable pub fetch_all_node_metrics :
        Result ApiError (List String) → MetricsCache F → Result FetchError (MetricsCache F)
    fetch_all_node_metrics (err e) cache = err (list_nodes_failed e)
    fetch_all_node_metrics (ok List.[]) cache = err no_nodes
    fetch_all_node_metrics (ok (List.◌∷◌ node nodes)) cache =
        fetch_nodes (List.◌∷◌ node nodes) cache

    unfoldable pub get_all_volume_metrics :
        Result ApiError (List String) → Result FetchError (MetricsCache F)
    get_all_volume_metrics nodes = do
      cache ← fetch_all_node_metrics nodes new_metrics_cache
      ok (calculate_usage_percentages lib cache)
