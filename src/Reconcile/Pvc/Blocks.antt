-- ===== src/Reconcile/Pvc/Blocks.antt =====
-- The effects of reconcilePVC as a sequence of blocks, for properties of whole lists of effects.
use pvc_chonker.Prelude.{
  Result-cases, String, Bool, true, false, Option, none, some, List, [], ◌∷◌, ◌++◌, Bool-cases,
  Option-cases, inl, inr, if◌then◌else◌,
}
use pvc_chonker.Prelude.Int.{ℤ}
use pvc_chonker.Kube.{Pvc}
use pvc_chonker.Libs.{Libs}
use pvc_chonker.Annotations.Types.{PvcConfig}
use pvc_chonker.Annotations.Cooldown.{is_in_cooldown, is_pvc_resizing}
use pvc_chonker.Annotations.Policies.{resolve_pvc_config}
use pvc_chonker.Metrics.{
  observe, kubelet_client_response_time, set, record_failed_resize, record_resize_in_progress,
  record_cooldown_skipped, record_kubernetes_client_request, record_kubelet_client_request,
  record_loop_duration, update_pvc_metrics, update_pvc_inodes_metrics, reconciliation_status,
  managed_pvcs_total, last_reconciliation_time,
}
use pvc_chonker.StorageCache
use pvc_chonker.StorageCache.{StorageClassCache}
use pvc_chonker.Kubelet.Cache.{VolumeMetrics, MetricsCache, get}
use pvc_chonker.Reconcile.Types.{Env, Effect, metrics, namespaced_name}
use pvc_chonker.Reconcile.Class.{is_pvc_eligible, is_storage_class_expandable}
use pvc_chonker.Reconcile.Pvc.Courses.{Course, expansion-Course}
use pvc_chonker.Reconcile.Pvc.{
  threshold_reached, measured, unguarded, class_checked, reconcile_managed, reconcile_pvc,
}

-- `P` holds of the blocks that a cycle is made of, and of one list after another.
pub record IsClosed {F Q : Type 0} (S : Type 0) (P : List (Effect F Q) → Type 0) : Type 0 where
  pub nothing : P []
  pub append : (es fs : List (Effect F Q)) → P es → P fs → P (es ++ fs)
  pub kubernetes_request :
      (operation status : String) → P (metrics (record_kubernetes_client_request operation status))
  pub kubelet_request : (status : String) → P (metrics (record_kubelet_client_request status))
  pub not_expandable :
      (name namespace : String)
      → P (metrics (record_failed_resize name namespace "storage_class_not_expandable"))
  pub not_measured :
      (name namespace : String)
      → P (metrics (record_failed_resize name namespace "metrics_not_found"))
  pub in_progress :
      (name namespace : String) → P (metrics (record_resize_in_progress name namespace))
  pub cooling : (name namespace : String) → P (metrics (record_cooldown_skipped name namespace))
  pub usage :
      (lib : Libs F Q S) (name namespace : String) (usage : F) (capacity : ℤ)
      → P (metrics (update_pvc_metrics lib name namespace usage capacity))
  pub inodes_usage :
      (lib : Libs F Q S) (name namespace : String) (usage : F) (total : ℤ)
      → P (metrics (update_pvc_inodes_metrics lib name namespace usage total))
  pub course : (pvc : Pvc Q) (es : List (Effect F Q)) → Course pvc es → P es
  pub status :
      (label : String) (x : F) → P (metrics (set reconciliation_status (label ∷ []) x ∷ []))
  pub managed : (x : F) → P (metrics (set managed_pvcs_total [] x ∷ []))
  pub last_time : (x : F) → P (metrics (set last_reconciliation_time [] x ∷ []))
  pub response_time :
      (seconds : F) → P (metrics (observe kubelet_client_response_time seconds ∷ []))
  pub loop_duration : (seconds : F) → P (metrics (record_loop_duration seconds))

module _ {F Q S : Type 0} {P : List (Effect F Q) → Type 0} (closed : IsClosed S P) (env : Env F Q S)
    (pvc : Pvc Q) where
  branch : (b : Bool) (es fs : List (Effect F Q)) → P es → P fs → P (if b then es else fs)
  branch true es fs p q = p
  branch false es fs p q = q

  measured-IsClosed :
      (cache : StorageClassCache) (config : PvcConfig F Q) (vm : VolumeMetrics F)
      → P (measured env cache pvc config vm)
  unfolding measured
  measured-IsClosed cache config vm =
      closed.append _ _ (closed.usage env.lib pvc.name pvc.namespace _ _) (
        closed.append _ _ (closed.inodes_usage env.lib pvc.name pvc.namespace _ _) (
          branch (threshold_reached env config vm) _ _
            (closed.course pvc _ (expansion-Course env cache pvc config vm)) closed.nothing))

  unguarded-IsClosed :
      (volumes : MetricsCache F) (cache : StorageClassCache) (config : PvcConfig F Q)
      → P (unguarded env volumes cache pvc config)
  unfolding unguarded
  unguarded-IsClosed volumes cache config =
      branch (is_pvc_resizing (some pvc)) _ _ (closed.in_progress pvc.name pvc.namespace) (
        branch (is_in_cooldown (some config) env.now) _ _ (closed.cooling pvc.name pvc.namespace)
          (found (get volumes (namespaced_name pvc))))
    where
      found :
          (o : Option (VolumeMetrics F))
          → P (elim o [
            | none ↦ metrics (record_failed_resize pvc.name pvc.namespace "metrics_not_found")
            | some vm ↦ measured env cache pvc config vm
          ])
      found none = closed.not_measured pvc.name pvc.namespace
      found (some vm) = measured-IsClosed cache config vm

  is_storage_class_expandable-IsClosed :
      (cache : StorageClassCache) (name : Option String)
      → P (is_storage_class_expandable env cache name).2
  unfolding is_storage_class_expandable
  is_storage_class_expandable-IsClosed cache none = closed.nothing
  is_storage_class_expandable-IsClosed cache (some name) =
      elim (Option-cases (StorageCache.get cache name)) [
        | inr (expandable, known) ↦ rw (known, is_storage_class_expandable) closed.nothing
        | inl unknown ↦ elim (Result-cases (env.get_storage_class name)) [
          | inl (e, failed) ↦
              rw (unknown, failed, is_storage_class_expandable) (closed.kubernetes_request _ _)
          | inr (sc, answered) ↦
              rw (unknown, answered, is_storage_class_expandable) (closed.kubernetes_request _ _)
        ]
      ]

  class_checked-IsClosed :
      (volumes : MetricsCache F) (config : PvcConfig F Q) (b : Bool) (cache : StorageClassCache)
      (calls : List (Effect F Q))
      → P calls
      → P (class_checked env volumes pvc config (b, cache, calls)).1
  unfolding class_checked
  class_checked-IsClosed volumes config true cache calls p =
      closed.append _ _ p (unguarded-IsClosed volumes cache config)
  class_checked-IsClosed volumes config false cache calls p =
      closed.append _ _ p (closed.not_expandable pvc.name pvc.namespace)

  reconcile_managed-IsClosed :
      (volumes : MetricsCache F) (cache : StorageClassCache) (config : PvcConfig F Q)
      → P (reconcile_managed env volumes cache pvc config).1
  unfolding reconcile_managed
  reconcile_managed-IsClosed volumes cache config = elim (Bool-cases (is_pvc_eligible pvc)) [
    | inl eligible ↦
        let answer = is_storage_class_expandable env cache pvc.storage_class_name in
        rw eligible (
          class_checked-IsClosed volumes config answer.0 answer.1 answer.2
            (is_storage_class_expandable-IsClosed cache pvc.storage_class_name))
    | inr excluded ↦ rw excluded closed.nothing
  ]

  pub reconcile_pvc-IsClosed :
      (volumes : MetricsCache F) (cache : StorageClassCache)
      → P (reconcile_pvc env volumes cache pvc).1
  unfolding reconcile_pvc
  reconcile_pvc-IsClosed volumes cache =
      elim (Result-cases (resolve_pvc_config env.lib env.list_policies pvc env.global)) [
        | inl (e, unmanaged) ↦ rw (unmanaged, reconcile_pvc) closed.nothing
        | inr (config, resolved) ↦
            rw (resolved, reconcile_pvc) (reconcile_managed-IsClosed volumes cache config)
      ]
