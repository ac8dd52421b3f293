-- ===== src/Reconcile/Pvc/Effects.antt =====
-- All effects of an expansion, in order, for a PVC that passes every test.
use pvc_chonker.Prelude.{
  String, Bool, true, false, Option, none, some, List, [], ◌∷◌, ◌++◌, ◌≡◌, refl, arith,
}
use mathlib.Core.List.{append_assoc}
use pvc_chonker.Kube.{Pvc}
use pvc_chonker.Annotations.Types.{PvcConfig}
use pvc_chonker.Metrics.{record_kubernetes_client_request, MetricOp}
use pvc_chonker.StorageCache.{StorageClassCache}
use pvc_chonker.Kubelet.Cache.{VolumeMetrics, MetricsCache}
use pvc_chonker.Reconcile.Types.{
  Env, Effect, metric, send, event, panic, Message, failed_to_expand, expanded_inode_pressure,
  expanded_fixed_inodes, expanded_with_inodes, expanded, metrics, storage_of,
}
use pvc_chonker.Reconcile.Class.{is_pvc_eligible, is_storage_class_expandable}
use pvc_chonker.Reconcile.Expand.{done, expand_pvc}
use pvc_chonker.Reconcile.Pvc.{
  expansion_event, report, expansion, measured, unguarded, class_checked, reconcile_managed,
}
use pvc_chonker.Reconcile.Pvc.Stages.{IsDue, IsExpandable}

-- the sizes before and after that a message gives
sizes : {F Q : Type 0} → Message F Q → List (Q × Q)
sizes (failed_to_expand e) = []
sizes (expanded_inode_pressure a b usage inodes fs_type) = (a, b) ∷ []
sizes (expanded_fixed_inodes a b usage inodes fs_type) = (a, b) ∷ []
sizes (expanded_with_inodes a b usage inodes) = (a, b) ∷ []
sizes (expanded a b usage) = (a, b) ∷ []

module _ {F Q : Type 0} where
  -- the sizes that the events report, in order
  pub reported : List (Effect F Q) → List (Q × Q)
  unfolding sizes
  reported [] = []
  reported (event type reason message ∷ es) = sizes message ++ reported es
  reported (metric op ∷ es) = reported es
  reported (send pvc ∷ es) = reported es
  reported (panic ∷ es) = reported es

  reported-append : (es fs : List (Effect F Q)) → reported (es ++ fs) ≡ reported es ++ reported fs
  unfolding reported
  reported-append [] fs = refl
  reported-append (event type reason message ∷ es) fs =
      rw (reported-append es fs, append_assoc) refl
  reported-append (metric op ∷ es) fs = reported-append es fs
  reported-append (send pvc ∷ es) fs = reported-append es fs
  reported-append (panic ∷ es) fs = reported-append es fs

  reported-metrics-append :
      (ops : List (MetricOp F)) (es : List (Effect F Q))
      → reported (metrics ops ++ es) ≡ reported es
  unfolding reported
  reported-metrics-append [] es = refl
  reported-metrics-append (op ∷ ops) es = reported-metrics-append ops es

module _ {F Q S : Type 0} (env : Env F Q S) (pvc : Pvc Q) (config : PvcConfig F Q) where
  reported-expansion_event :
      (cache : StorageClassCache) (vm : VolumeMetrics F)
      → reported (expansion_event env cache pvc config vm)
        ≡ (storage_of env.lib pvc.capacity, storage_of env.lib pvc.requests) ∷ []
  unfolding expansion_event reported
  reported-expansion_event cache vm = ground arith

  reported-expand_pvc : reported (expand_pvc env pvc config).1 ≡ []
  unfolding expand_pvc reported record_kubernetes_client_request
  reported-expand_pvc = ground arith

  reported-expansion :
      (cache : StorageClassCache) (vm : VolumeMetrics F)
      → (expand_pvc env pvc config).0 ≡ done
      → reported (expansion env cache pvc config vm)
        ≡ (storage_of env.lib pvc.capacity, storage_of env.lib pvc.requests) ∷ []
  unfolding expansion report reported
  reported-expansion cache vm e =
      rw
        (
          reported-append (expand_pvc env pvc config).1
              (report env cache pvc config vm (expand_pvc env pvc config).0),
          reported-expand_pvc,
          e,
        )
        (reported-expansion_event cache vm)

  reported-unguarded :
      (volumes : MetricsCache F) (cache : StorageClassCache)
      → IsDue env pvc config volumes
      → (expand_pvc env pvc config).0 ≡ done
      → reported (unguarded env volumes cache pvc config)
        ≡ (storage_of env.lib pvc.capacity, storage_of env.lib pvc.requests) ∷ []
  unfolding unguarded measured reported
  reported-unguarded volumes cache d e =
      rw (d.quiet, d.rested, d.found, d.reached)
        (simp reported-metrics-append (reported-expansion cache d.usage e))

  reported-is_storage_class_expandable :
      (cache : StorageClassCache) (name : Option String)
      → reported (is_storage_class_expandable env cache name).2 ≡ []
  unfolding is_storage_class_expandable record_kubernetes_client_request reported
  reported-is_storage_class_expandable cache none = refl
  reported-is_storage_class_expandable cache (some name) = ground arith

  reported-class_checked :
      (volumes : MetricsCache F) (b : Bool) (cache : StorageClassCache) (calls : List (Effect F Q))
      → reported calls ≡ []
      → b ≡ true
      → reported (class_checked env volumes pvc config (b, cache, calls)).1
        ≡ reported (unguarded env volumes cache pvc config)
  unfolding class_checked
  reported-class_checked volumes true cache calls e h = rw (reported-append, e) refl
  reported-class_checked volumes false cache calls e h = cc

  -- Where every test passes and ExpandPVC returns without an error, the only sizes reported are
  -- the capacity and the request of the PVC as it was before.
  pub reported-reconcile_managed :
      (volumes : MetricsCache F) (cache : StorageClassCache)
      → is_pvc_eligible pvc ≡ true
      → IsExpandable env pvc config cache
      → IsDue env pvc config volumes
      → (expand_pvc env pvc config).0 ≡ done
      → reported (reconcile_managed env volumes cache pvc config).1
        ≡ (storage_of env.lib pvc.capacity, storage_of env.lib pvc.requests) ∷ []
  unfolding reconcile_managed
  reported-reconcile_managed volumes cache eligible expandable due e =
      let answer = is_storage_class_expandable env cache pvc.storage_class_name in
      rw
        (
          eligible,
          reported-class_checked volumes answer.0 answer.1 answer.2
              (reported-is_storage_class_expandable cache pvc.storage_class_name) expandable,
        )
        (reported-unguarded volumes answer.1 due e)
