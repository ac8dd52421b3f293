-- ===== src/Metrics/Registry.antt =====
-- The declarations of the series in pkg/metrics/metrics.go and their registration in init.
-- prometheus.BuildFQName, which makes the name of a series, is a parameter.
pub mod Names
use Prim.Native.String
use Prim.Native.String.{◌++◌}
use pvc_chonker.Prelude.{
  ℕ, String, Bool, true, false, not, ◌&&◌, List, [], ◌∷◌, length, map, ◌≡◌, ◌≢◌, ◌==◌, refl, sym,
  ◌∙◌, ap, Any, inl, inr, if◌then◌else◌,
}
use pvc_chonker.Metrics.{
  Series, success_resize_total, failed_resize_total, loop_seconds_total, limit_reached_total,
  threshold_reached_total, cooldown_skipped_total, resize_in_progress_total,
  kubernetes_client_fail_total, kubernetes_client_requests_total, kubelet_client_fail_total,
  kubelet_client_requests_total, kubelet_client_response_time, last_reconciliation_time,
  reconciliation_status, managed_pvcs_total, pvc_usage_percent, pvc_capacity_bytes,
  pvc_inodes_usage_percent, pvc_inodes_total, MetricOp, inc, add, set, delete, observe,
}

pub data Kind : Type 0 where
  counter gauge histogram : Kind

-- The options of a series, without its help text, and its variable labels.
pub record Declaration : Type 0 where
  pub namespace : String
  pub subsystem : String
  pub name : String
  pub kind : Kind
  pub labels : List String

abbrev namespace_pvcchonker : String
namespace_pvcchonker = "pvcchonker"

abbrev resizer_subsystem : String
resizer_subsystem = "resizer"

abbrev kubernetes_client_subsystem : String
kubernetes_client_subsystem = "kubernetes_client"

abbrev kubelet_client_subsystem : String
kubelet_client_subsystem = "kubelet_client"

abbrev declared : String → String → Kind → List String → Declaration
declared subsystem name kind labels = record {
  namespace = namespace_pvcchonker;
  subsystem = subsystem;
  name = name;
  kind = kind;
  labels = labels;
}

-- the labels of a series with one value for each PVC
abbrev of_pvc : List String
of_pvc = "persistentvolumeclaim" ∷ "namespace" ∷ []

abbrev pub declaration : Series → Declaration
declaration success_resize_total = declared resizer_subsystem "success_resize_total" counter of_pvc
declaration failed_resize_total =
    declared resizer_subsystem "failed_resize_total" counter
      ("persistentvolumeclaim" ∷ "namespace" ∷ "reason" ∷ [])
declaration loop_seconds_total = declared resizer_subsystem "loop_seconds_total" counter []
declaration limit_reached_total = declared resizer_subsystem "limit_reached_total" counter of_pvc
declaration threshold_reached_total =
    declared resizer_subsystem "threshold_reached_total" counter of_pvc
declaration cooldown_skipped_total =
    declared resizer_subsystem "cooldown_skipped_total" counter of_pvc
declaration resize_in_progress_total =
    declared resizer_subsystem "resize_in_progress_total" counter of_pvc
declaration kubernetes_client_fail_total =
    declared kubernetes_client_subsystem "fail_total" counter ("operation" ∷ [])
declaration kubernetes_client_requests_total =
    declared kubernetes_client_subsystem "requests_total" counter ("operation" ∷ "status" ∷ [])
declaration kubelet_client_fail_total = declared kubelet_client_subsystem "fail_total" counter []
declaration kubelet_client_requests_total =
    declared kubelet_client_subsystem "requests_total" counter ("status" ∷ [])
declaration kubelet_client_response_time =
    declared kubelet_client_subsystem "response_time_seconds" histogram []
declaration last_reconciliation_time = declared "" "last_reconciliation_timestamp_seconds" gauge []
declaration reconciliation_status = declared "" "reconciliation_status" gauge ("status" ∷ [])
declaration managed_pvcs_total = declared "" "managed_pvcs_total" gauge []
declaration pvc_usage_percent = declared "" "pvc_usage_percent" gauge of_pvc
declaration pvc_capacity_bytes = declared "" "pvc_capacity_bytes" gauge of_pvc
declaration pvc_inodes_usage_percent = declared "" "pvc_inodes_usage_percent" gauge of_pvc
declaration pvc_inodes_total = declared "" "pvc_inodes_total" gauge of_pvc

-- the arguments of MustRegister in init
abbrev pub registered : List Series
registered =
    success_resize_total ∷ failed_resize_total ∷ loop_seconds_total ∷ limit_reached_total
    ∷ threshold_reached_total ∷ cooldown_skipped_total ∷ resize_in_progress_total
    ∷ kubernetes_client_fail_total ∷ kubernetes_client_requests_total ∷ kubelet_client_fail_total
    ∷ kubelet_client_requests_total ∷ kubelet_client_response_time ∷ last_reconciliation_time
    ∷ reconciliation_status ∷ managed_pvcs_total ∷ pvc_usage_percent ∷ pvc_capacity_bytes
    ∷ pvc_inodes_usage_percent ∷ pvc_inodes_total ∷ []

-- The operation can be made on a series so declared. WithLabelValues panics where the number of
-- the values is not that of the labels, and a method that the type of the series lacks does not
-- compile: a counter has Inc and Add, a gauge Set, a histogram Observe, and only a series with
-- labels has DeleteLabelValues.
abbrev pub Fits : {F : Type 0} → MetricOp F → Type 0
Fits (inc s values) =
    ((declaration s).kind ≡ counter) × (length values ≡ length (declaration s).labels)
Fits (add s x) = ((declaration s).kind ≡ counter) × (length (declaration s).labels ≡ 0)
Fits (set s values x) =
    ((declaration s).kind ≡ gauge) × (length values ≡ length (declaration s).labels)
Fits (delete s values) =
    ((declaration s).labels ≢ []) × (length values ≡ length (declaration s).labels)
Fits (observe s x) = ((declaration s).kind ≡ histogram) × (length (declaration s).labels ≡ 0)
