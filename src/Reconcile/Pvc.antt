-- ===== src/Reconcile/Pvc.antt =====
-- reconcilePVC: the chain of tests before an expansion, and the reports after it.
pub mod Stages
pub mod Effects
pub mod CacheUse
pub mod Courses
pub mod Panics
pub mod Blocks
use pvc_chonker.Prelude.{
  String, Bool, true, false, not, ◌&&◌, ◌||◌, Option, none, some, List, [], ◌∷◌, ◌++◌, Result, ok,
  err, ◌==◌, if◌then◌else◌,
}
use pvc_chonker.Prelude.Int.{ℤ, pos, ltb_ℤ}
use pvc_chonker.Kube.{Pvc}
use pvc_chonker.Annotations.Types.{PvcConfig}
use pvc_chonker.Annotations.Cooldown.{is_in_cooldown, is_pvc_resizing}
use pvc_chonker.Annotations.Policies.{ResolveError, resolve_pvc_config}
use pvc_chonker.Metrics.{
  record_failed_resize, record_resize_in_progress, record_cooldown_skipped,
  record_threshold_reached, record_successful_resize, update_pvc_metrics, update_pvc_inodes_metrics,
}
use pvc_chonker.StorageCache.{StorageClassCache}
use pvc_chonker.Kubelet.Cache.{VolumeMetrics, MetricsCache, get}
use pvc_chonker.Reconcile.Types.{
  Env, Effect, event, Message, failed_to_expand, expanded_inode_pressure, expanded_fixed_inodes,
  expanded_with_inodes, expanded, metrics, storage_of, namespaced_name,
}
use pvc_chonker.Reconcile.Class.{is_pvc_eligible, is_storage_class_expandable, get_filesystem_type}
use pvc_chonker.Reconcile.Expand.{Outcome, done, failed, panicked, expand_pvc}

module _ {F Q S : Type 0} (env : Env F Q S) where
  open env use {lib}

  -- volumeMetrics.InodesTotal > 0, and then InodesUsagePercent >= config.InodesThreshold
  unfoldable pub inodes_reached : PvcConfig F Q → VolumeMetrics F → Bool
  inodes_reached config vm =
      ltb_ℤ (pos 0) vm.inodes_total && lib.le config.inodes_threshold vm.inodes_usage_percent

  -- thresholdReached
  unfoldable pub threshold_reached : PvcConfig F Q → VolumeMetrics F → Bool
  unfolding inodes_reached
  threshold_reached config vm =
      if inodes_reached config vm then true else lib.le config.threshold vm.usage_percent

  -- the event after an expansion; `new_size` is read from `pvc` again
  expansion_event : StorageClassCache → Pvc Q → PvcConfig F Q → VolumeMetrics F → List (Effect F Q)
  expansion_event cache pvc config vm =
      let current_size = storage_of lib pvc.capacity in
      let new_size = storage_of lib pvc.requests in
      let fs_type = get_filesystem_type cache pvc.storage_class_name in
      if ltb_ℤ (pos 0) vm.inodes_total
      then if lib.le config.inodes_threshold vm.inodes_usage_percent
        then if fs_type == "ext3" || fs_type == "ext4"
          then event "Warning" "ExpandedInodePressure" (
              expanded_fixed_inodes current_size new_size vm.usage_percent vm.inodes_usage_percent
                fs_type)
            ∷ []
          else event "Normal" "ExpandedInodePressure" (
              expanded_inode_pressure current_size new_size vm.usage_percent vm.inodes_usage_percent
                fs_type)
            ∷ []
        else event "Normal" "Expanded"
            (expanded_with_inodes current_size new_size vm.usage_percent vm.inodes_usage_percent)
          ∷ []
      else event "Normal" "Expanded" (expanded current_size new_size vm.usage_percent) ∷ []

  -- what follows the return of ExpandPVC
  report :
      StorageClassCache → Pvc Q → PvcConfig F Q → VolumeMetrics F → Outcome Q → List (Effect F Q)
  unfolding expansion_event
  report cache pvc config vm done =
      metrics (record_successful_resize pvc.name pvc.namespace)
      ++ expansion_event cache pvc config vm
  report cache pvc config vm (failed e) =
      metrics (record_failed_resize pvc.name pvc.namespace "expansion_failed")
      ++ event "Warning" "ExpansionFailed" (failed_to_expand e) ∷ []
  report cache pvc config vm panicked = []

  -- from "Threshold reached" on
  pub expansion : StorageClassCache → Pvc Q → PvcConfig F Q → VolumeMetrics F → List (Effect F Q)
  unfolding report
  expansion cache pvc config vm =
      let (outcome, effects) = expand_pvc env pvc config in
      metrics (record_threshold_reached pvc.name pvc.namespace)
      ++ (effects ++ report cache pvc config vm outcome)

  -- from "Found volume metrics" on
  measured : StorageClassCache → Pvc Q → PvcConfig F Q → VolumeMetrics F → List (Effect F Q)
  unfolding expansion
  measured cache pvc config vm =
      metrics (
        update_pvc_metrics lib pvc.name pvc.namespace vm.usage_percent
          (lib.value (storage_of lib pvc.capacity)))
      ++ (metrics (
            update_pvc_inodes_metrics lib pvc.name pvc.namespace vm.inodes_usage_percent
              vm.inodes_total)
          ++ (if threshold_reached config vm then expansion cache pvc config vm else []))

  -- below the test of the storage class
  pub unguarded : MetricsCache F → StorageClassCache → Pvc Q → PvcConfig F Q → List (Effect F Q)
  unfolding measured
  unguarded volumes cache pvc config =
      if is_pvc_resizing (some pvc)
      then metrics (record_resize_in_progress pvc.name pvc.namespace)
      else if is_in_cooldown (some config) env.now
      then metrics (record_cooldown_skipped pvc.name pvc.namespace)
      else elim (get volumes (namespaced_name pvc)) [
        | none ↦ metrics (record_failed_resize pvc.name pvc.namespace "metrics_not_found")
        | some vm ↦ measured cache pvc config vm
      ]

  -- below the call of IsStorageClassExpandable, with its answer, the cache and its effects
  pub class_checked :
      MetricsCache F
      → Pvc Q
      → PvcConfig F Q
      → Bool × StorageClassCache × List (Effect F Q)
      → StorageClassCache × List (Effect F Q)
  unfolding unguarded
  class_checked volumes pvc config (true, cache, calls) =
      (cache, calls ++ unguarded volumes cache pvc config)
  class_checked volumes pvc config (false, cache, calls) = (
    cache,
    calls ++ metrics (record_failed_resize pvc.name pvc.namespace "storage_class_not_expandable"),
  )

  -- below the resolution of the configuration
  unfoldable pub reconcile_managed :
      MetricsCache F
      → StorageClassCache
      → Pvc Q
      → PvcConfig F Q
      → StorageClassCache × List (Effect F Q)
  unfolding class_checked
  reconcile_managed volumes cache pvc config =
      if is_pvc_eligible pvc
      then class_checked volumes pvc config
          (is_storage_class_expandable env cache pvc.storage_class_name)
      else (cache, [])

  unfoldable pub reconcile_pvc :
      MetricsCache F → StorageClassCache → Pvc Q → StorageClassCache × List (Effect F Q)
  reconcile_pvc volumes cache pvc = elim (resolve_pvc_config lib env.list_policies pvc env.global) [
    | err e ↦ (cache, [])
    | ok config ↦ reconcile_managed volumes cache pvc config
  ]
