-- ===== src/Metrics.antt =====
-- pkg/metrics/metrics.go: the Record and Update functions as the operations that they make on the
-- Prometheus series, in order. The registry itself is not part of the repository.
pub mod Registry
use pvc_chonker.Prelude.{String, List, [], ◌∷◌, ◌==◌, if◌then◌else◌}
use pvc_chonker.Prelude.Int.{ℤ, pos, ltb_ℤ}
use pvc_chonker.Libs.{Libs}

pub data Series : Type 0 where
  success_resize_total failed_resize_total loop_seconds_total limit_reached_total : Series
  threshold_reached_total cooldown_skipped_total resize_in_progress_total : Series
  kubernetes_client_fail_total kubernetes_client_requests_total : Series
  kubelet_client_fail_total kubelet_client_requests_total kubelet_client_response_time : Series
  last_reconciliation_time reconciliation_status managed_pvcs_total : Series
  pvc_usage_percent pvc_capacity_bytes pvc_inodes_usage_percent pvc_inodes_total : Series

-- WithLabelValues(...).Inc(), Add, WithLabelValues(...).Set, DeleteLabelValues and Observe
pub data MetricOp (F : Type 0) : Type 0 where
  inc : Series → List String → MetricOp F
  add : Series → F → MetricOp F
  set : Series → List String → F → MetricOp F
  delete : Series → List String → MetricOp F
  observe : Series → F → MetricOp F

module _ {F : Type 0} where
  abbrev pub record_successful_resize : String → String → List (MetricOp F)
  record_successful_resize pvc_name namespace =
      inc success_resize_total (pvc_name ∷ namespace ∷ []) ∷ []

  abbrev pub record_failed_resize : String → String → String → List (MetricOp F)
  record_failed_resize pvc_name namespace reason =
      inc failed_resize_total (pvc_name ∷ namespace ∷ reason ∷ []) ∷ []

  abbrev pub record_threshold_reached : String → String → List (MetricOp F)
  record_threshold_reached pvc_name namespace =
      inc threshold_reached_total (pvc_name ∷ namespace ∷ []) ∷ []

  abbrev pub record_limit_reached : String → String → List (MetricOp F)
  record_limit_reached pvc_name namespace = inc limit_reached_total (pvc_name ∷ namespace ∷ []) ∷ []

  abbrev pub record_cooldown_skipped : String → String → List (MetricOp F)
  record_cooldown_skipped pvc_name namespace =
      inc cooldown_skipped_total (pvc_name ∷ namespace ∷ []) ∷ []

  abbrev pub record_resize_in_progress : String → String → List (MetricOp F)
  record_resize_in_progress pvc_name namespace =
      inc resize_in_progress_total (pvc_name ∷ namespace ∷ []) ∷ []

  unfoldable pub record_kubernetes_client_request : String → String → List (MetricOp F)
  record_kubernetes_client_request operation status =
      inc kubernetes_client_requests_total (operation ∷ status ∷ [])
      ∷ (if status == "failed" then inc kubernetes_client_fail_total (operation ∷ []) ∷ [] else [])

  unfoldable pub record_kubelet_client_request : String → List (MetricOp F)
  record_kubelet_client_request status =
      inc kubelet_client_requests_total (status ∷ [])
      ∷ (if status == "failed" then inc kubelet_client_fail_total [] ∷ [] else [])

  abbrev pub record_loop_duration : F → List (MetricOp F)
  record_loop_duration seconds = add loop_seconds_total seconds ∷ []

module _ {F Q S : Type 0} (lib : Libs F Q S) where
  unfoldable pub update_pvc_metrics : String → String → F → ℤ → List (MetricOp F)
  update_pvc_metrics pvc_name namespace usage_percent capacity_bytes =
      set pvc_usage_percent (pvc_name ∷ namespace ∷ []) usage_percent
      ∷ set pvc_capacity_bytes (pvc_name ∷ namespace ∷ []) (lib.of_int capacity_bytes)
      ∷ []

  unfoldable pub update_pvc_inodes_metrics : String → String → F → ℤ → List (MetricOp F)
  update_pvc_inodes_metrics pvc_name namespace inodes_usage_percent inodes_total =
      if ltb_ℤ (pos 0) inodes_total
      then set pvc_inodes_usage_percent (pvc_name ∷ namespace ∷ []) inodes_usage_percent
        ∷ set pvc_inodes_total (pvc_name ∷ namespace ∷ []) (lib.of_int inodes_total)
        ∷ []
      else delete pvc_inodes_usage_percent (pvc_name ∷ namespace ∷ [])
        ∷ delete pvc_inodes_total (pvc_name ∷ namespace ∷ [])
        ∷ []
