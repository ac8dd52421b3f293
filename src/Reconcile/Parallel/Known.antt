-- ===== src/Reconcile/Parallel/Known.antt =====
-- What each step of one goroutine keeps: the cache holds only what the API server answers, and a
-- finished goroutine sent what its PVC alone would send.
use pvc_chonker.Prelude.{
  Result-cases, suc, ◌-◌, String, Bool, true, false, Option, none, some, [], ok, err, ◌≡◌, refl,
  arith, sym, ◌==◌, eq_iff, lookup-insert, inl, inr, Bool-cases, Option-cases, eqb,
}
use pvc_chonker.Kube.{Pvc, StorageClass, ApiError}
use pvc_chonker.Annotations.Types.{PvcConfig}
use pvc_chonker.Annotations.Policies.{resolve_pvc_config}
use pvc_chonker.StorageCache.{StorageClassCache, get, set, get_fs_type, set_fs_type}
use pvc_chonker.Kubelet.Cache.{MetricsCache}
use pvc_chonker.Metrics.{record_kubernetes_client_request}
use pvc_chonker.Reconcile.Types.{Env, metrics, has_panic}
use pvc_chonker.Reconcile.Panics.{has_panic-metrics}
use pvc_chonker.Reconcile.Pvc.Panics.{panics}
use pvc_chonker.Reconcile.Class.{is_pvc_eligible, class_expandable, class_fs_type}
use pvc_chonker.Reconcile.Class.Coherent.{direct}
use pvc_chonker.Reconcile.Pvc.{class_checked}
use pvc_chonker.Reconcile.Sent.{sent, sent-metrics}
use pvc_chonker.Reconcile.Parallel.{
  Phase, waiting, starting, fetching, storing, answered, finished, Shared, give_back, look_up,
  begin, fetch, advance,
}
use pvc_chonker.Reconcile.Parallel.Sends.{
  alone, sent-class_checked-alone, unresolved-alone, ineligible-alone, panics-class_checked-alone,
  unresolved-panics, ineligible-panics,
}

module _ {F Q S : Type 0} (env : Env F Q S) (volumes : MetricsCache F) where
  -- Each entry of the cache is what the API server answers for the class.
  pub record IsKnown (cache : StorageClassCache) : Type 0 where
    pub expandable :
        (name : String) (b : Bool) → get cache name ≡ some b → b ≡ direct env (some name)
    pub typed :
        (name t : String)
        → get_fs_type cache name ≡ some t
        → (sc : StorageClass) × (env.get_storage_class name ≡ ok sc) × (class_fs_type sc ≡ t)

  abbrev IsManaged : Pvc Q → PvcConfig F Q → Type 0
  IsManaged pvc config =
      (resolve_pvc_config env.lib env.list_policies pvc env.global ≡ ok config)
      × (is_pvc_eligible pvc ≡ true)

  -- What is known of a PVC whose goroutine stands there.
  abbrev pub IsReached : Pvc Q → Phase F Q → Type 0
  IsReached pvc waiting = Unit
  IsReached pvc starting = Unit
  IsReached pvc (fetching config name) = IsManaged pvc config × (pvc.storage_class_name ≡ some name)
  IsReached pvc (storing config name sc) =
      IsManaged pvc config
      × (pvc.storage_class_name ≡ some name)
      × (env.get_storage_class name ≡ ok sc)
  IsReached pvc (answered config b calls) =
      IsManaged pvc config
      × (b ≡ direct env pvc.storage_class_name)
      × (sent calls ≡ [])
      × (has_panic calls ≡ false)
  IsReached pvc (finished effects) =
      (sent effects ≡ alone env volumes pvc) × (has_panic effects ≡ panics env volumes pvc)

  abbrev IsKept : Pvc Q → Shared × Phase F Q → Type 0
  IsKept pvc (shared, phase) = IsKnown shared.cache × IsReached pvc phase

  direct_ok :
      (name : String) (sc : StorageClass)
      → env.get_storage_class name ≡ ok sc
      → direct env (some name) ≡ class_expandable sc
  direct_ok name sc answer = rw (answer, direct) refl

  direct_err :
      (name : String) (e : ApiError)
      → env.get_storage_class name ≡ err e
      → direct env (some name) ≡ false
  direct_err name e answer = rw (answer, direct) refl

  set-IsKnown :
      (cache : StorageClassCache) (name : String) (sc : StorageClass)
      → env.get_storage_class name ≡ ok sc
      → IsKnown cache
      → IsKnown (set cache name (class_expandable sc))
  unfolding get set get_fs_type
  set-IsKnown cache name sc answer known = record {
    expandable = λ j b e. elim (Bool-cases (name == j)) [
      | inl same ↦ rw (← (eq_iff name j).0 same) (
          ground (
            arith,
            direct_ok name sc answer,
            lookup-insert name j (class_expandable sc) cache.cache,
          ))
      | inr other ↦
          known.expandable j b
            (ground (arith, lookup-insert name j (class_expandable sc) cache.cache))
    ];
    typed = known.typed;
  }

  set_fs_type-IsKnown :
      (cache : StorageClassCache) (name : String) (sc : StorageClass)
      → env.get_storage_class name ≡ ok sc
      → IsKnown cache
      → IsKnown (set_fs_type cache name (class_fs_type sc))
  unfolding get set_fs_type get_fs_type
  set_fs_type-IsKnown cache name sc answer known = record {
    expandable = known.expandable;
    typed = λ j t e. elim (Bool-cases (name == j)) [
      | inl same ↦ (
        sc,
        rw (← (eq_iff name j).0 same) answer,
        ground (arith, lookup-insert name j (class_fs_type sc) cache.fs_types),
      )
      | inr other ↦
          known.typed j t (ground (arith, lookup-insert name j (class_fs_type sc) cache.fs_types))
    ];
  }

  module _ (pvc : Pvc Q) (shared : Shared) (known : IsKnown shared.cache) where
    look_up-IsKept :
        (config : PvcConfig F Q) (name : Option String)
        → IsManaged pvc config
        → pvc.storage_class_name ≡ name
        → IsKept pvc (look_up env volumes shared config name)
    unfolding look_up sent has_panic
    look_up-IsKept config none m e = (known, (m, rw e refl, refl, refl))
    look_up-IsKept config (some name) m e = elim (Option-cases (get shared.cache name)) [
      | inl missing ↦ rw (missing, look_up) (known, (m, e))
      | inr (b, found) ↦
          rw (found, look_up) (known, (m, rw e (known.expandable name b found), refl, refl))
    ]

    begin-IsKept : IsKept pvc (begin env volumes shared pvc)
    unfolding begin give_back sent has_panic
    begin-IsKept =
        elim (Result-cases (resolve_pvc_config env.lib env.list_policies pvc env.global)) [
          | inl (e, failed) ↦
              rw (failed, begin)
                (
                  known,
                  (
                    sym (unresolved-alone env volumes pvc e failed),
                    sym (unresolved-panics env volumes pvc e failed),
                  ),
                )
          | inr (config, resolved) ↦ elim (Bool-cases (is_pvc_eligible pvc)) [
            | inl eligible ↦
                rw (resolved, begin, eligible)
                  (look_up-IsKept config pvc.storage_class_name (resolved, eligible) refl)
            | inr excluded ↦
                rw (resolved, begin, excluded)
                  (
                    known,
                    (
                      sym (ineligible-alone env volumes pvc config resolved excluded),
                      sym (ineligible-panics env volumes pvc config resolved excluded),
                    ),
                  )
          ]
        ]

    fetch-IsKept :
        (config : PvcConfig F Q) (name : String)
        → IsManaged pvc config
        → pvc.storage_class_name ≡ some name
        → IsKept pvc (fetch env volumes shared config name)
    unfolding fetch
    fetch-IsKept config name m e = elim (Result-cases (env.get_storage_class name)) [
      | inl (x, failed) ↦
          rw (failed, fetch)
            (
              known,
              (m, rw e (sym (direct_err name x failed)), sent-metrics _, has_panic-metrics F Q _),
            )
      | inr (sc, answer) ↦
          rw (answer, fetch) (set-IsKnown shared.cache name sc answer known, (m, e, answer))
    ]

    -- The next step of a goroutine keeps the cache, and what is known of its PVC.
    pub advance-IsKept :
        (phase : Phase F Q) (next : Shared × Phase F Q)
        → advance env volumes shared pvc phase ≡ some next
        → IsReached pvc phase
        → IsKept pvc next
    unfolding advance give_back
    advance-IsKept waiting next e r = elim (Bool-cases (eqb shared.free 0)) [
      | inl none_left ↦ absurd (ground arith)
      | inr left ↦
          let same : next ≡ (record shared { free = shared.free - 1 }, starting) = ground arith in
          rw same (known, tt)
    ]
    advance-IsKept starting next e r =
        let same : next ≡ begin env volumes shared pvc = cc in rw same begin-IsKept
    advance-IsKept (fetching config name) next e (m, named) =
        let same : next ≡ fetch env volumes shared config name = cc in
        rw same (fetch-IsKept config name m named)
    advance-IsKept (storing config name sc) next e (m, named, answer) =
        let same : next ≡ (
          record shared { cache = set_fs_type shared.cache name (class_fs_type sc) },
          answered config (class_expandable sc)
              (metrics (record_kubernetes_client_request "get_storageclass" "success")),
        ) =
          cc in
        rw same (
          set_fs_type-IsKnown shared.cache name sc answer known,
          (m, rw named (sym (direct_ok name sc answer)), sent-metrics _, has_panic-metrics F Q _),
        )
    advance-IsKept (answered config b calls) next e ((resolved, eligible), answer, silent, quiet) =
        let effects = (class_checked env volumes pvc config (b, shared.cache, calls)).1 in
        let same : next ≡ (record shared { free = suc shared.free }, finished effects) = cc in
        rw same (
          known,
          (
            sent-class_checked-alone env volumes pvc config b shared.cache calls resolved eligible
                answer silent,
            panics-class_checked-alone env volumes pvc config b shared.cache calls resolved eligible
                answer quiet,
          ),
        )
    advance-IsKept (finished effects) next e r = cc
