-- ===== src/Kubelet/Fetch/Nodes.antt =====
-- What GetAllVolumeMetrics finds for a PVC that one node reports.
use pvc_chonker.Prelude.{
  String, Option, none, some, List, [], ◌∷◌, ◌++◌, Dict, lookup, ok, ◌==◌, ◌≡◌, refl, ◌∙◌, ap, All,
  Bool-cases, inl, inr,
}
use pvc_chonker.Kube.{NamespacedName}
use pvc_chonker.Libs.{Libs}
use pvc_chonker.Kubelet.Cache.{
  MetricsCache, VolumeMetrics, capacity, available, inodes, inodes_used, get, new_metrics_cache,
  with_usage, usages, calculate_usage_percentages,
}
use pvc_chonker.Kubelet.Collector.{MetricsCollector, Requests}
use pvc_chonker.Kubelet.Fetch.{
  Sample, store_families, node_families, fetch_node_metrics, fetch_nodes, fetch_all_node_metrics,
  get_all_volume_metrics,
}
use pvc_chonker.Kubelet.Fetch.Stored.{written, reported, get-store_families}

module _ {F Q S : Type 0} (lib : Libs F Q S) where
  abbrev pub usage_of : Option (VolumeMetrics F) → Option (VolumeMetrics F)
  usage_of none = none
  usage_of (some vm) = some (with_usage lib vm)

  lookup-usages :
      (key : String) (entries : Dict (VolumeMetrics F))
      → lookup key (usages lib entries) ≡ usage_of (lookup key entries)
  unfolding lookup usages
  lookup-usages key [] = refl
  lookup-usages key ((k, vm) ∷ entries) = elim (Bool-cases (k == key)) [
    | inl same ↦ rw same refl
    | inr other ↦ rw other (lookup-usages key entries)
  ]

  pub get-calculate_usage_percentages :
      (cache : MetricsCache F) (pvc : NamespacedName)
      → get (calculate_usage_percentages lib cache) pvc ≡ usage_of (get cache pvc)
  unfolding get calculate_usage_percentages
  get-calculate_usage_percentages cache pvc = lookup-usages _ cache.entries

  -- the metrics of the PVC with what these families report about it
  abbrev pub after_families :
      Dict (List (Sample F)) → NamespacedName → Option (VolumeMetrics F) → Option (VolumeMetrics F)
  after_families families pvc there =
      written lib inodes_used (reported lib pvc "kubelet_volume_stats_inodes_used" families) (
        written lib inodes (reported lib pvc "kubelet_volume_stats_inodes" families) (
          written lib available (reported lib pvc "kubelet_volume_stats_available_bytes" families) (
            written lib capacity (reported lib pvc "kubelet_volume_stats_capacity_bytes" families)
              there)))

  module _ {R : Type 0} (requests : Requests R) (mc : MetricsCollector)
      (parser : String → Option (Dict (List (Sample F)))) (pvc : NamespacedName) where
    -- The node can be read and reports nothing about the PVC.
    pub record IsSilent (node : String) : Type 0 where
      pub families : Dict (List (Sample F))
      pub read : node_families lib requests mc parser node ≡ ok families
      pub capacity : reported lib pvc "kubelet_volume_stats_capacity_bytes" families ≡ none
      pub available : reported lib pvc "kubelet_volume_stats_available_bytes" families ≡ none
      pub inodes : reported lib pvc "kubelet_volume_stats_inodes" families ≡ none
      pub inodes_used : reported lib pvc "kubelet_volume_stats_inodes_used" families ≡ none

    -- The nodes can be read, and leave the PVC's metrics like this.
    Leaves : List String → MetricsCache F → Option (VolumeMetrics F) → Type 0
    Leaves nodes cache there =
        (after : MetricsCache F) × (fetch_nodes lib requests mc parser nodes cache ≡ ok after)
        × (get after pvc ≡ there)

    fetch_nodes-first :
        (node : String) (nodes : List String) (families : Dict (List (Sample F)))
        (cache : MetricsCache F)
        → node_families lib requests mc parser node ≡ ok families
        → fetch_nodes lib requests mc parser (node ∷ nodes) cache
          ≡ fetch_nodes lib requests mc parser nodes (store_families lib families cache)
    unfolding fetch_nodes fetch_node_metrics
    fetch_nodes-first node nodes families cache read = rw read refl

    get-IsSilent :
        (node : String) (s : IsSilent node) (cache : MetricsCache F)
        → get (store_families lib s.families cache) pvc ≡ get cache pvc
    get-IsSilent node s cache =
        get-store_families lib s.families cache pvc
        ∙ rw (s.capacity, s.available, s.inodes, s.inodes_used) refl

    IsSilent-Leaves :
        (nodes : List String) (cache : MetricsCache F)
        → All IsSilent nodes
        → Leaves nodes cache (get cache pvc)
    unfolding Leaves
    IsSilent-Leaves [] cache h = (cache, unfold fetch_nodes in refl, refl)
    IsSilent-Leaves (node ∷ nodes) cache (s, h) =
        let (after, reads, same) = IsSilent-Leaves nodes (store_families lib s.families cache) h in
        (
          after,
          fetch_nodes-first node nodes s.families cache s.read ∙ reads,
          same ∙ get-IsSilent node s cache,
        )

    sole-Leaves :
        (before after : List String) (node : String) (families : Dict (List (Sample F)))
        (cache : MetricsCache F)
        → node_families lib requests mc parser node ≡ ok families
        → All IsSilent before
        → All IsSilent after
        → Leaves (before ++ node ∷ after) cache (after_families families pvc (get cache pvc))
    unfolding Leaves
    sole-Leaves [] after node families cache read h k =
        let (last, reads, same) = IsSilent-Leaves after (store_families lib families cache) k in
        (
          last,
          fetch_nodes-first node after families cache read ∙ reads,
          same ∙ get-store_families lib families cache pvc,
        )
    sole-Leaves (first ∷ before) after node families cache read (s, h) k =
        let (last, reads, same) =
          sole-Leaves before after node families (store_families lib s.families cache) read h k in
        (
          last,
          fetch_nodes-first first (before ++ node ∷ after) s.families cache s.read ∙ reads,
          same ∙ ap (after_families families pvc) (get-IsSilent first s cache),
        )

    fetch_all-nodes :
        (before after : List String) (node : String) (cache : MetricsCache F)
        → fetch_all_node_metrics lib requests mc parser (ok (before ++ node ∷ after)) cache
          ≡ fetch_nodes lib requests mc parser (before ++ node ∷ after) cache
    unfolding fetch_all_node_metrics
    fetch_all-nodes [] after node cache = refl
    fetch_all-nodes (first ∷ before) after node cache = refl

    -- Where every node can be read and one of them alone reports about a PVC, GetAllVolumeMetrics
    -- succeeds, and finds for the PVC what that node reports of the four metrics, with the usage
    -- computed, wherever the node stands among the others.
    pub get-get_all_volume_metrics :
        (before after : List String) (node : String) (families : Dict (List (Sample F)))
        → node_families lib requests mc parser node ≡ ok families
        → All IsSilent before
        → All IsSilent after
        → (cache : MetricsCache F) × (get_all_volume_metrics lib requests mc parser
              (ok (before ++ node ∷ after))
            ≡ ok cache)
          × (get cache pvc ≡ usage_of (after_families families pvc none))
    unfolding get_all_volume_metrics Leaves get lookup
    get-get_all_volume_metrics before after node families read h k =
        let (last, reads, same) =
          sole-Leaves before after node families new_metrics_cache read h k in
        (
          calculate_usage_percentages lib last,
          rw (fetch_all-nodes before after node new_metrics_cache, reads) refl,
          get-calculate_usage_percentages last pvc ∙ ap usage_of same,
        )
