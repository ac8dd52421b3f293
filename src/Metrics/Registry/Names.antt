-- ===== src/Metrics/Registry/Names.antt =====
-- The names under which the series are exported.
use Prim.Native.String.{◌++◌}
use pvc_chonker.Prelude.{String, false, ◌≡◌, ◌≢◌, ◌==◌, eq_iff, refl, arith}
use pvc_chonker.Metrics.{
  Series, success_resize_total, failed_resize_total, loop_seconds_total, limit_reached_total,
  threshold_reached_total, cooldown_skipped_total, resize_in_progress_total,
  kubernetes_client_fail_total, kubernetes_client_requests_total, kubelet_client_fail_total,
  kubelet_client_requests_total, kubelet_client_response_time, last_reconciliation_time,
  reconciliation_status, managed_pvcs_total, pvc_usage_percent, pvc_capacity_bytes,
  pvc_inodes_usage_percent, pvc_inodes_total,
}
use pvc_chonker.Metrics.Registry.{declaration}

-- What is documented of prometheus.BuildFQName: it joins the parts by "_" and leaves out the
-- subsystem where that is empty.
pub record JoinsNames (build_fq_name : String → String → String → String) : Type 0 where
  pub all_parts :
      (namespace subsystem name : String)
      → namespace ≢ ""
      → subsystem ≢ ""
      → name ≢ ""
      → build_fq_name namespace subsystem name ≡ namespace ++ "_" ++ subsystem ++ "_" ++ name
  pub no_subsystem :
      (namespace name : String)
      → namespace ≢ ""
      → name ≢ ""
      → build_fq_name namespace "" name ≡ namespace ++ "_" ++ name

-- The names that a scrape of the program shows.
abbrev pub exported_name : Series → String
exported_name success_resize_total = "pvcchonker_resizer_success_resize_total"
exported_name failed_resize_total = "pvcchonker_resizer_failed_resize_total"
exported_name loop_seconds_total = "pvcchonker_resizer_loop_seconds_total"
exported_name limit_reached_total = "pvcchonker_resizer_limit_reached_total"
exported_name threshold_reached_total = "pvcchonker_resizer_threshold_reached_total"
exported_name cooldown_skipped_total = "pvcchonker_resizer_cooldown_skipped_total"
exported_name resize_in_progress_total = "pvcchonker_resizer_resize_in_progress_total"
exported_name kubernetes_client_fail_total = "pvcchonker_kubernetes_client_fail_total"
exported_name kubernetes_client_requests_total = "pvcchonker_kubernetes_client_requests_total"
exported_name kubelet_client_fail_total = "pvcchonker_kubelet_client_fail_total"
exported_name kubelet_client_requests_total = "pvcchonker_kubelet_client_requests_total"
exported_name kubelet_client_response_time = "pvcchonker_kubelet_client_response_time_seconds"
exported_name last_reconciliation_time = "pvcchonker_last_reconciliation_timestamp_seconds"
exported_name reconciliation_status = "pvcchonker_reconciliation_status"
exported_name managed_pvcs_total = "pvcchonker_managed_pvcs_total"
exported_name pvc_usage_percent = "pvcchonker_pvc_usage_percent"
exported_name pvc_capacity_bytes = "pvcchonker_pvc_capacity_bytes"
exported_name pvc_inodes_usage_percent = "pvcchonker_pvc_inodes_usage_percent"
exported_name pvc_inodes_total = "pvcchonker_pvc_inodes_total"

ne_empty : (s : String) → (s == "") ≡ false → s ≢ ""
ne_empty s other e = absurd (ground (arith, (eq_iff s "").1 e))

module _ (build_fq_name : String → String → String → String) where
  abbrev pub fq_name : Series → String
  fq_name s = let d = declaration s in build_fq_name d.namespace d.subsystem d.name

  -- By the documented names of the Prometheus client each series is exported under its listed name.
  fq_name-exported : JoinsNames build_fq_name → (s : Series) → fq_name s ≡ exported_name s
  fq_name-exported laws success_resize_total =
      laws.all_parts "pvcchonker" "resizer" "success_resize_total" (ne_empty _ refl)
        (ne_empty _ refl) (ne_empty _ refl)
  fq_name-exported laws failed_resize_total =
      laws.all_parts "pvcchonker" "resizer" "failed_resize_total" (ne_empty _ refl)
        (ne_empty _ refl) (ne_empty _ refl)
  fq_name-exported laws loop_seconds_total =
      laws.all_parts "pvcchonker" "resizer" "loop_seconds_total" (ne_empty _ refl) (ne_empty _ refl)
        (ne_empty _ refl)
  fq_name-exported laws limit_reached_total =
      laws.all_parts "pvcchonker" "resizer" "limit_reached_total" (ne_empty _ refl)
        (ne_empty _ refl) (ne_empty _ refl)
  fq_name-exported laws threshold_reached_total =
      laws.all_parts "pvcchonker" "resizer" "threshold_reached_total" (ne_empty _ refl)
        (ne_empty _ refl) (ne_empty _ refl)
  fq_name-exported laws cooldown_skipped_total =
      laws.all_parts "pvcchonker" "resizer" "cooldown_skipped_total" (ne_empty _ refl)
        (ne_empty _ refl) (ne_empty _ refl)
  fq_name-exported laws resize_in_progress_total =
      laws.all_parts "pvcchonker" "resizer" "resize_in_progress_total" (ne_empty _ refl)
        (ne_empty _ refl) (ne_empty _ refl)
  fq_name-exported laws kubernetes_client_fail_total =
      laws.all_parts "pvcchonker" "kubernetes_client" "fail_total" (ne_empty _ refl)
        (ne_empty _ refl) (ne_empty _ refl)
  fq_name-exported laws kubernetes_client_requests_total =
      laws.all_parts "pvcchonker" "kubernetes_client" "requests_total" (ne_empty _ refl)
        (ne_empty _ refl) (ne_empty _ refl)
  fq_name-exported laws kubelet_client_fail_total =
      laws.all_parts "pvcchonker" "kubelet_client" "fail_total" (ne_empty _ refl) (ne_empty _ refl)
        (ne_empty _ refl)
  fq_name-exported laws kubelet_client_requests_total =
      laws.all_parts "pvcchonker" "kubelet_client" "requests_total" (ne_empty _ refl)
        (ne_empty _ refl) (ne_empty _ refl)
  fq_name-exported laws kubelet_client_response_time =
      laws.all_parts "pvcchonker" "kubelet_client" "response_time_seconds" (ne_empty _ refl)
        (ne_empty _ refl) (ne_empty _ refl)
  fq_name-exported laws last_reconciliation_time =
      laws.no_subsystem "pvcchonker" "last_reconciliation_timestamp_seconds" (ne_empty _ refl)
        (ne_empty _ refl)
  fq_name-exported laws reconciliation_status =
      laws.no_subsystem "pvcchonker" "reconciliation_status" (ne_empty _ refl) (ne_empty _ refl)
  fq_name-exported laws managed_pvcs_total =
      laws.no_subsystem "pvcchonker" "managed_pvcs_total" (ne_empty _ refl) (ne_empty _ refl)
  fq_name-exported laws pvc_usage_percent =
      laws.no_subsystem "pvcchonker" "pvc_usage_percent" (ne_empty _ refl) (ne_empty _ refl)
  fq_name-exported laws pvc_capacity_bytes =
      laws.no_subsystem "pvcchonker" "pvc_capacity_bytes" (ne_empty _ refl) (ne_empty _ refl)
  fq_name-exported laws pvc_inodes_usage_percent =
      laws.no_subsystem "pvcchonker" "pvc_inodes_usage_percent" (ne_empty _ refl) (ne_empty _ refl)
  fq_name-exported laws pvc_inodes_total =
      laws.no_subsystem "pvcchonker" "pvc_inodes_total" (ne_empty _ refl) (ne_empty _ refl)
