-- ===== src/Reconcile/Pvc/Stages.antt =====
-- The Update calls of each stage of reconcilePVC are those of ExpandPVC, or none.
use pvc_chonker.Prelude.{
  String, Bool, true, false, Option, none, some, List, [], ◌≡◌, refl, arith, if◌then◌else◌,
  Bool-cases, Option-cases, inl, inr, ◌⊎◌,
}
use mathlib.Core.List.{append-nil}
use pvc_chonker.Kube.{Pvc}
use pvc_chonker.Annotations.Types.{PvcConfig}
use pvc_chonker.Annotations.Cooldown.{is_in_cooldown, is_pvc_resizing}
use pvc_chonker.StorageCache.{StorageClassCache}
use pvc_chonker.Kubelet.Cache.{VolumeMetrics, MetricsCache, get}
use pvc_chonker.Metrics.{record_kubernetes_client_request}
use pvc_chonker.Reconcile.Types.{Env, Effect, namespaced_name}
use pvc_chonker.Reconcile.Class.{is_pvc_eligible, is_storage_class_expandable}
use pvc_chonker.Reconcile.Expand.{Outcome, done, failed, panicked, expand_pvc}
use pvc_chonker.Reconcile.Sent.{sent, sent-append, sent-metrics, sent-metrics-append}
use pvc_chonker.Reconcile.Pvc.{
  threshold_reached, expansion_event, report, expansion, measured, unguarded, class_checked,
  reconcile_managed,
}

module _ {F Q S : Type 0} (env : Env F Q S) (pvc : Pvc Q) (config : PvcConfig F Q) where
  sent-expansion_event :
      (cache : StorageClassCache) (vm : VolumeMetrics F)
      → sent (expansion_event env cache pvc config vm) ≡ []
  unfolding expansion_event sent
  sent-expansion_event cache vm = ground arith

  sent-report :
      (cache : StorageClassCache) (vm : VolumeMetrics F) (o : Outcome Q)
      → sent (report env cache pvc config vm o) ≡ []
  unfolding report sent
  sent-report cache vm done = sent-expansion_event cache vm
  sent-report cache vm (failed e) = refl
  sent-report cache vm panicked = refl

  sent-expansion :
      (cache : StorageClassCache) (vm : VolumeMetrics F)
      → sent (expansion env cache pvc config vm) ≡ sent (expand_pvc env pvc config).1
  unfolding expansion sent
  sent-expansion cache vm =
      rw
        (
          sent-append (expand_pvc env pvc config).1
              (report env cache pvc config vm (expand_pvc env pvc config).0),
          sent-report cache vm (expand_pvc env pvc config).0,
        )
        (append-nil _)

  -- The PVC is due: nothing holds it back, and its usage is measured and has reached a threshold.
  pub record IsDue (volumes : MetricsCache F) : Type 0 where
    pub quiet : is_pvc_resizing (some pvc) ≡ false
    pub rested : is_in_cooldown (some config) env.now ≡ false
    pub usage : VolumeMetrics F
    pub found : get volumes (namespaced_name pvc) ≡ some usage
    pub reached : threshold_reached env config usage ≡ true

  sent-measured :
      (cache : StorageClassCache) (vm : VolumeMetrics F)
      → sent (measured env cache pvc config vm)
        ≡ (if threshold_reached env config vm then sent (expand_pvc env pvc config).1 else [])
  unfolding measured
  sent-measured cache vm =
      simp sent-metrics-append (elim (Bool-cases (threshold_reached env config vm)) [
        | inl reached ↦ rw reached (sent-expansion cache vm)
        | inr below ↦ rw below (unfold sent in refl)
      ])

  pub sent-unguarded_of_IsDue :
      (volumes : MetricsCache F) (cache : StorageClassCache)
      → IsDue volumes
      → sent (unguarded env volumes cache pvc config) ≡ sent (expand_pvc env pvc config).1
  unfolding unguarded
  sent-unguarded_of_IsDue volumes cache d =
      rw (d.quiet, d.rested, d.found) (ground (arith, sent-measured cache d.usage, d.reached))

  pub sent-unguarded :
      (volumes : MetricsCache F) (cache : StorageClassCache)
      → (sent (unguarded env volumes cache pvc config) ≡ []) ⊎ IsDue volumes
  unfolding unguarded
  sent-unguarded volumes cache = elim (Bool-cases (is_pvc_resizing (some pvc))) [
    | inl busy ↦ inl (rw busy (unfold sent in refl))
    | inr quiet ↦ elim (Bool-cases (is_in_cooldown (some config) env.now)) [
      | inl cooling ↦ inl (rw (quiet, cooling) (unfold sent in refl))
      | inr rested ↦ elim (Option-cases (get volumes (namespaced_name pvc))) [
        | inl unknown ↦ inl (rw (quiet, rested, unknown) (unfold sent in refl))
        | inr (vm, found) ↦ elim (Bool-cases (threshold_reached env config vm)) [
          | inl reached ↦ inr (record {
            quiet = quiet;
            rested = rested;
            usage = vm;
            found = found;
            reached = reached;
          })
          | inr below ↦ inl (rw (quiet, rested, found) (ground (arith, sent-measured cache vm)))
        ]
      ]
    ]
  ]

  sent-is_storage_class_expandable :
      (cache : StorageClassCache) (name : Option String)
      → sent (is_storage_class_expandable env cache name).2 ≡ []
  unfolding is_storage_class_expandable record_kubernetes_client_request sent
  sent-is_storage_class_expandable cache none = refl
  sent-is_storage_class_expandable cache (some name) = ground arith

  pub sent-class_checked :
      (volumes : MetricsCache F) (b : Bool) (cache : StorageClassCache) (calls : List (Effect F Q))
      → sent calls ≡ []
      → sent (class_checked env volumes pvc config (b, cache, calls)).1
        ≡ (if b then sent (unguarded env volumes cache pvc config) else [])
  unfolding class_checked
  sent-class_checked volumes true cache calls e = rw (sent-append, e) refl
  sent-class_checked volumes false cache calls e = rw (sent-append, e, sent-metrics) refl

  -- the storage class allows an expansion, by the cache or by the API server
  abbrev pub IsExpandable : StorageClassCache → Type 0
  IsExpandable cache = (is_storage_class_expandable env cache pvc.storage_class_name).0 ≡ true

  pub sent-class_checked_here :
      (volumes : MetricsCache F) (cache : StorageClassCache)
      → sent
          (class_checked env volumes pvc config
            (is_storage_class_expandable env cache pvc.storage_class_name)).1
        ≡ (if (is_storage_class_expandable env cache pvc.storage_class_name).0
            then sent (
                unguarded env volumes
                  (is_storage_class_expandable env cache pvc.storage_class_name).1
                  pvc
                  config)
            else [])
  sent-class_checked_here volumes cache =
      let answer = is_storage_class_expandable env cache pvc.storage_class_name in
      sent-class_checked volumes answer.0 answer.1 answer.2
        (sent-is_storage_class_expandable cache pvc.storage_class_name)

  -- Below the resolution of the configuration nothing is sent, or the PVC passes every test.
  pub sent-reconcile_managed :
      (volumes : MetricsCache F) (cache : StorageClassCache)
      → (sent (reconcile_managed env volumes cache pvc config).1 ≡ [])
        ⊎ ((is_pvc_eligible pvc ≡ true) × IsExpandable cache × IsDue volumes)
  unfolding reconcile_managed
  sent-reconcile_managed volumes cache = elim (Bool-cases (is_pvc_eligible pvc)) [
    | inr excluded ↦ inl (rw excluded (unfold sent in refl))
    | inl eligible ↦
        let answer = is_storage_class_expandable env cache pvc.storage_class_name in
        elim (Bool-cases answer.0) [
          | inr fixed ↦ inl (rw (eligible, sent-class_checked_here volumes cache, fixed) refl)
          | inl expandable ↦ elim (sent-unguarded volumes answer.1) [
            | inl held ↦ inl (rw (eligible, sent-class_checked_here volumes cache, expandable) held)
            | inr due ↦ inr (eligible, expandable, due)
          ]
        ]
  ]

  -- A PVC that passes every test has the Update calls of ExpandPVC.
  pub sent-reconcile_managed_of_IsDue :
      (volumes : MetricsCache F) (cache : StorageClassCache)
      → is_pvc_eligible pvc ≡ true
      → IsExpandable cache
      → IsDue volumes
      → sent (reconcile_managed env volumes cache pvc config).1 ≡ sent (expand_pvc env pvc config).1
  unfolding reconcile_managed
  sent-reconcile_managed_of_IsDue volumes cache eligible expandable due =
      rw (eligible, sent-class_checked_here volumes cache, expandable)
        (sent-unguarded_of_IsDue volumes _ due)
