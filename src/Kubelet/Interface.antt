-- ===== src/Kubelet/Interface.antt =====
-- pkg/kubelet/interface.go: the two operations of a metrics collector, as MetricsCollector in
-- pkg/kubelet/cache.go and pkg/kubelet/metrics.go gives them. Each has its answer and its
-- operations on the series.
use pvc_chonker.Prelude.{
  or_else-eq-ok_iff, String, Option, some, List, [], ◌∷◌, ◌++◌, Dict, Result, ok, err, ◌≡◌, ◌↔◌,
  refl, arith,
}
use pvc_chonker.Kube.{ApiError, NamespacedName}
use pvc_chonker.Libs.{Libs}
use pvc_chonker.Metrics.{MetricOp, observe, kubelet_client_response_time}
use pvc_chonker.Kubelet.Cache.{VolumeMetrics, MetricsCache, get}
use pvc_chonker.Kubelet.Collector.{MetricsCollector, Requests, RequestError}
use pvc_chonker.Kubelet.Fetch.{Sample, FetchError}
use pvc_chonker.Kubelet.Fetch.Group.{Return, get_all_in_parallel}
use pvc_chonker.Kubelet.Volume
use pvc_chonker.Kubelet.Volume.{VolumeError, volume_not_found}

pub record MetricsCollectorInterface (F : Type 0) : Type 0 where
  pub get_volume_metrics :
      NamespacedName → Result (VolumeError FetchError) (VolumeMetrics F) × List (MetricOp F)
  pub get_all_volume_metrics : Result FetchError (MetricsCache F) × List (MetricOp F)

get_volume_metrics-found :
    {F : Type 0} (nn : NamespacedName) (vm : VolumeMetrics F) (seconds : F)
    (r : Result FetchError (MetricsCache F))
    → ((Volume.get_volume_metrics nn seconds r).0 ≡ ok vm)
      ↔ ((cache : MetricsCache F) × (r ≡ ok cache) × (get cache nn ≡ some vm))
unfolding Volume.get_volume_metrics
get_volume_metrics-found nn vm seconds (err e) = (λ h. cc, λ (cache, h, k). cc)
get_volume_metrics-found nn vm seconds (ok cache) =
    (λ h. (cache, refl, (or_else-eq-ok_iff _ _ _).0 h), λ (cache', h, k). ground arith)

module _ {F Q S R : Type 0} (lib : Libs F Q S) (requests : Requests R) (mc : MetricsCollector)
    (text_to_metric_families : String → Option (Dict (List (Sample F)))) (stopped : RequestError)
    (nodes : Result ApiError (List String)) (returns : List Return) (inner outer : F) where
  -- the seconds that GetAllVolumeMetrics and GetVolumeMetrics take are `inner` and `outer`
  abbrev all_metrics : Result FetchError (MetricsCache F) × List (MetricOp F)
  all_metrics =
      get_all_in_parallel lib requests mc text_to_metric_families stopped nodes returns inner

  -- var _ MetricsCollectorInterface = (*MetricsCollector)(nil)
  unfoldable pub metrics_collector : MetricsCollectorInterface F
  metrics_collector = record {
    get_volume_metrics = λ namespaced_name.
        let (volume, operations) = Volume.get_volume_metrics namespaced_name outer all_metrics.0 in
        (volume, all_metrics.1 ++ operations);
    get_all_volume_metrics = all_metrics;
  }

  -- GetVolumeMetrics answers for a PVC exactly what GetAllVolumeMetrics at the same answers of the
  -- kubelets has stored for it. It observes the response time twice: in its own deferred call, and
  -- in that of the GetAllVolumeMetrics that it calls.
  pub get_volume_metrics-eq-ok_iff :
      (nn : NamespacedName) (vm : VolumeMetrics F)
      → (((metrics_collector.get_volume_metrics nn).0 ≡ ok vm) ↔ (
          (cache : MetricsCache F) × (metrics_collector.get_all_volume_metrics.0 ≡ ok cache)
          × (get cache nn ≡ some vm)))
        × ((metrics_collector.get_volume_metrics nn).1
            ≡ observe kubelet_client_response_time inner
              ∷ observe kubelet_client_response_time outer
              ∷ [])
  unfolding metrics_collector Volume.get_volume_metrics get_all_in_parallel
  get_volume_metrics-eq-ok_iff nn vm =
      (get_volume_metrics-found nn vm outer all_metrics.0, at_result all_metrics.0)
    where
      at_result :
          (r : Result FetchError (MetricsCache F))
          → observe kubelet_client_response_time inner ∷ (Volume.get_volume_metrics nn outer r).1
            ≡ observe kubelet_client_response_time inner
              ∷ observe kubelet_client_response_time outer
              ∷ []
      at_result (ok cache) = refl
      at_result (err e) = refl
