-- ===== src/Kubelet/Fetch/Group.antt =====
-- The error group of fetchAllNodeMetrics in pkg/kubelet/cache.go. The goroutines are listed in the
-- order in which they return. As documented for errgroup, the first error is kept and cancels the
-- context, and Wait returns the error that was kept. A request that the cancellation reaches fails
-- with an error of its own, `stopped`.
pub mod Outcome
use pvc_chonker.Prelude.{
  String, Bool, true, false, ◌&&◌, Option, none, some, List, [], ◌∷◌, Dict, Result, ok, err, ◌>>=◌,
  if◌then◌else◌, map, ◌≡◌, ◌≢◌, ◌⊎◌, >>=-eq-ok, >>=-eq-err, ◌↔◌, refl, sym, ap, ◌∙◌, arith, All,
  Any, All-Permᴰ, Any-Permᴰ, inl, inr, Bool-cases, Result-cases,
}
use mathlib.Core.List.Permᴰ
use mathlib.Core.List.{Permᴰ}
use pvc_chonker.Kube.{ApiError}
use pvc_chonker.Libs.{Libs}
use pvc_chonker.Metrics.{MetricOp, observe, kubelet_client_response_time}
use pvc_chonker.Kubelet.Cache.{MetricsCache, new_metrics_cache, calculate_usage_percentages}
use pvc_chonker.Kubelet.Collector.{MetricsCollector, Requests, RequestError}
use pvc_chonker.Kubelet.Fetch.{
  Sample, FetchError, request_failed, list_nodes_failed, no_nodes, store_families, node_families,
  fetch_node_metrics, fetch_nodes, fetch_all_node_metrics,
}

-- A goroutine that returns: its node, and whether a cancellation would still reach its request.
pub record Return : Type 0 where
  pub node : String
  pub late : Bool

-- The error that the group has kept, if any, which is when its context is cancelled; and the cache.
pub record ErrGroup (F : Type 0) : Type 0 where
  pub kept : Option FetchError
  pub cache : MetricsCache F

abbrev pub is_cancelled : {F : Type 0} → ErrGroup F → Bool
is_cancelled group = elim group.kept [ none ↦ false | some e ↦ true ]

abbrev first_of : Option FetchError → FetchError → FetchError
first_of none e = e
first_of (some first) e = first

module _ {F Q S R : Type 0} (lib : Libs F Q S) (requests : Requests R) (mc : MetricsCollector)
    (text_to_metric_families : String → Option (Dict (List (Sample F))))
    (stopped : RequestError) where
  -- fetchNodeMetrics with the context of the group
  unfoldable pub fetch_in_group : ErrGroup F → Return → Result FetchError (MetricsCache F)
  fetch_in_group group r =
      if is_cancelled group && r.late
      then err (request_failed r.node stopped)
      else fetch_node_metrics lib requests mc text_to_metric_families r.node group.cache

  -- what the return of a goroutine does to the group
  unfoldable pub on_return : ErrGroup F → Return → ErrGroup F
  on_return group r = elim (fetch_in_group group r) [
    | ok cache ↦ record { kept = group.kept; cache = cache }
    | err e ↦ record { kept = some (first_of group.kept e); cache = group.cache }
  ]

  unfoldable pub all_returned : ErrGroup F → List Return → ErrGroup F
  all_returned group [] = group
  all_returned group (r ∷ rs) = all_returned (on_return group r) rs

  -- eg.Wait()
  unfoldable pub wait : ErrGroup F → Result FetchError (MetricsCache F)
  wait group = elim group.kept [ none ↦ ok group.cache | some e ↦ err e ]

  -- from errgroup.WithContext on
  unfoldable pub fetch_in_parallel :
      List Return → MetricsCache F → Result FetchError (MetricsCache F)
  fetch_in_parallel returns cache =
      wait (all_returned (record { kept = none; cache = cache }) returns)

  -- fetchAllNodeMetrics; `returns` are the goroutines of the nodes in the order of their returns
  unfoldable pub fetch_all_in_parallel :
      Result ApiError (List String)
      → List Return
      → MetricsCache F
      → Result FetchError (MetricsCache F)
  fetch_all_in_parallel (err e) returns cache = err (list_nodes_failed e)
  fetch_all_in_parallel (ok []) returns cache = err no_nodes
  fetch_all_in_parallel (ok (node ∷ nodes)) returns cache = fetch_in_parallel returns cache

  -- GetAllVolumeMetrics, with the observation that is deferred to each of its returns
  unfoldable pub get_all_in_parallel :
      Result ApiError (List String)
      → List Return
      → F
      → Result FetchError (MetricsCache F) × List (MetricOp F)
  get_all_in_parallel nodes returns seconds = (
    do
      cache ← fetch_all_in_parallel nodes returns new_metrics_cache
      ok (calculate_usage_percentages lib cache),
    observe kubelet_client_response_time seconds ∷ [],
  )
