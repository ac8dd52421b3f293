-- ===== src/Reconcile/Pvc/Panics.antt =====
-- When the goroutine of a PVC panics: ExpandPVC writes to the map of requests of a PVC that has
-- none.
use pvc_chonker.Prelude.{
  Dict, Result-cases, String, Bool, true, false, Option, none, some, List, ok, err, ◌≡◌, refl,
  arith, if◌then◌else◌, Bool-cases, Option-cases, inl, inr,
}
use pvc_chonker.Kube.{Pvc}
use pvc_chonker.Annotations.Types.{PvcConfig}
use pvc_chonker.Annotations.Cooldown.{is_in_cooldown, is_pvc_resizing, update_last_expansion}
use pvc_chonker.Annotations.Policies.{resolve_pvc_config}
use pvc_chonker.StorageCache.{StorageClassCache}
use pvc_chonker.Kubelet.Cache.{VolumeMetrics, MetricsCache, get}
use pvc_chonker.Metrics.{record_kubernetes_client_request}
use pvc_chonker.Reconcile.Types.{Env, Effect, namespaced_name, has_panic}
use pvc_chonker.Reconcile.Class.{is_pvc_eligible, is_storage_class_expandable}
use pvc_chonker.Reconcile.Class.Coherent.{
  IsCoherent, direct, is_storage_class_expandable-IsCoherent,
}
use pvc_chonker.Reconcile.Expand.{Outcome, done, failed, panicked, expand_pvc, resized}
use pvc_chonker.Reconcile.Pvc.{
  threshold_reached, expansion_event, report, expansion, measured, unguarded, class_checked,
  reconcile_managed, reconcile_pvc,
}
use pvc_chonker.Reconcile.Panics.{or_false, has_panic-append, has_panic-metrics-append}

module _ {F Q S : Type 0} (env : Env F Q S) (pvc : Pvc Q) (config : PvcConfig F Q) where
  has_panic-report :
      (cache : StorageClassCache) (vm : VolumeMetrics F) (o : Outcome Q)
      → has_panic (report env cache pvc config vm o) ≡ false
  unfolding report has_panic expansion_event
  has_panic-report cache vm done = ground arith
  has_panic-report cache vm (failed e) = refl
  has_panic-report cache vm panicked = refl

  has_panic-expansion :
      (cache : StorageClassCache) (vm : VolumeMetrics F)
      → has_panic (expansion env cache pvc config vm) ≡ has_panic (expand_pvc env pvc config).1
  unfolding expansion has_panic
  has_panic-expansion cache vm =
      rw
        (
          has_panic-append (expand_pvc env pvc config).1
              (report env cache pvc config vm (expand_pvc env pvc config).0),
          has_panic-report cache vm (expand_pvc env pvc config).0,
        )
        (or_false (has_panic (expand_pvc env pvc config).1))

  has_panic-measured :
      (cache : StorageClassCache) (vm : VolumeMetrics F)
      → has_panic (measured env cache pvc config vm) ≡ (
          if threshold_reached env config vm
          then has_panic (expand_pvc env pvc config).1
          else false)
  unfolding measured
  has_panic-measured cache vm =
      simp has_panic-metrics-append (elim (Bool-cases (threshold_reached env config vm)) [
        | inl reached ↦ rw reached (has_panic-expansion cache vm)
        | inr below ↦ rw below (unfold has_panic in refl)
      ])

  -- ExpandPVC panics for this PVC, if it comes to that.
  abbrev pub panics_if_due : MetricsCache F → Bool
  panics_if_due volumes =
      if is_pvc_resizing (some pvc)
      then false
      else if is_in_cooldown (some config) env.now
      then false
      else elim (get volumes (namespaced_name pvc)) [
        | none ↦ false
        | some vm ↦
            if threshold_reached env config vm
            then has_panic (expand_pvc env pvc config).1
            else false
      ]

  has_panic-unguarded :
      (volumes : MetricsCache F) (cache : StorageClassCache)
      → has_panic (unguarded env volumes cache pvc config) ≡ panics_if_due volumes
  unfolding unguarded
  has_panic-unguarded volumes cache = elim (Bool-cases (is_pvc_resizing (some pvc))) [
    | inl busy ↦ rw busy (unfold has_panic in refl)
    | inr quiet ↦ elim (Bool-cases (is_in_cooldown (some config) env.now)) [
      | inl cooling ↦ rw (quiet, cooling) (unfold has_panic in refl)
      | inr rested ↦ elim (Option-cases (get volumes (namespaced_name pvc))) [
        | inl unknown ↦ rw (quiet, rested, unknown) (unfold has_panic in refl)
        | inr (vm, found) ↦ rw (quiet, rested, found) (has_panic-measured cache vm)
      ]
    ]
  ]

  pub has_panic-class_checked :
      (volumes : MetricsCache F) (b : Bool) (cache : StorageClassCache) (calls : List (Effect F Q))
      → has_panic calls ≡ false
      → has_panic (class_checked env volumes pvc config (b, cache, calls)).1
        ≡ (if b then panics_if_due volumes else false)
  unfolding class_checked
  has_panic-class_checked volumes true cache calls e =
      rw (has_panic-append, e) (has_panic-unguarded volumes cache)
  has_panic-class_checked volumes false cache calls e =
      rw (has_panic-append, e) (unfold has_panic in refl)

  has_panic-is_storage_class_expandable :
      (cache : StorageClassCache) (name : Option String)
      → has_panic (is_storage_class_expandable env cache name).2 ≡ false
  unfolding is_storage_class_expandable record_kubernetes_client_request has_panic
  has_panic-is_storage_class_expandable cache none = refl
  has_panic-is_storage_class_expandable cache (some name) = ground arith

module _ {F Q S : Type 0} (env : Env F Q S) (volumes : MetricsCache F) (pvc : Pvc Q) where
  -- The goroutine of this PVC panics, by what the API server and the kubelets answer.
  abbrev pub panics : Bool
  panics = elim (resolve_pvc_config env.lib env.list_policies pvc env.global) [
    | err e ↦ false
    | ok config ↦
        if is_pvc_eligible pvc
        then if direct env pvc.storage_class_name
          then panics_if_due env pvc config volumes
          else false
        else false
  ]

  pub has_panic-reconcile_pvc :
      (cache : StorageClassCache)
      → IsCoherent env cache
      → has_panic (reconcile_pvc env volumes cache pvc).1 ≡ panics
  unfolding reconcile_pvc reconcile_managed
  has_panic-reconcile_pvc cache h =
      elim (Result-cases (resolve_pvc_config env.lib env.list_policies pvc env.global)) [
        | inl (e, unmanaged) ↦ rw (unmanaged, reconcile_pvc, panics) (unfold has_panic in refl)
        | inr (config, resolved) ↦ elim (Bool-cases (is_pvc_eligible pvc)) [
          | inr excluded ↦ rw (resolved, reconcile_pvc, panics, excluded) (unfold has_panic in refl)
          | inl eligible ↦
              let answer = is_storage_class_expandable env cache pvc.storage_class_name in
              let same =
                (is_storage_class_expandable-IsCoherent env cache pvc.storage_class_name h).1 in
              rw (resolved, reconcile_pvc, panics, eligible, ← same)
                (has_panic-class_checked env pvc config volumes answer.0 answer.1 answer.2 (
                  has_panic-is_storage_class_expandable env pvc config cache
                    pvc.storage_class_name))
        ]
      ]

  -- ExpandPVC writes to the requests that there are.
  has_panic-expand_pvc_of_requests :
      (config : PvcConfig F Q) (requests : Dict Q)
      → pvc.requests ≡ some requests
      → has_panic (expand_pvc env pvc config).1 ≡ false
  unfolding expand_pvc resized update_last_expansion has_panic record_kubernetes_client_request
  has_panic-expand_pvc_of_requests config requests e = ground arith

  -- A PVC with a map of requests never ends the program.
  pub panics_of_requests : (requests : Dict Q) → pvc.requests ≡ some requests → panics ≡ false
  panics_of_requests requests e =
      elim (Result-cases (resolve_pvc_config env.lib env.list_policies pvc env.global)) [
        | inl (x, unmanaged) ↦ rw (panics, unmanaged) refl
        | inr (config, resolved) ↦
            let quiet = has_panic-expand_pvc_of_requests config requests e in
            rw (panics, resolved) (ground (arith, quiet))
      ]
