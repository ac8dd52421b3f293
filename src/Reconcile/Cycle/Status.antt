-- ===== src/Reconcile/Cycle/Status.antt =====
-- The gauges of ReconciliationStatus after a cycle.
use pvc_chonker.Prelude.{
  String, Option, some, List, [], ◌∷◌, ◌++◌, ◌&&◌, ◌==◌, if◌then◌else◌, ◌≡◌, refl, Result, ok, err,
  false, select,
}
use pvc_chonker.Prelude.Int.{pos}
use pvc_chonker.Kube.{Pvc, ApiError}
use pvc_chonker.Metrics.{
  MetricOp, set, reconciliation_status, record_kubernetes_client_request,
  record_kubelet_client_request,
}
use pvc_chonker.StorageCache.{StorageClassCache, clear}
use pvc_chonker.Kubelet.Cache.{MetricsCache}
use pvc_chonker.Reconcile.Types.{Env, Effect, metric, has_panic, and_then}
use pvc_chonker.Reconcile.Panics.{
  or_false, and_then-append, has_panic-metrics-append, has_panic-metrics, has_panic-and_then,
}
use pvc_chonker.Reconcile.Cycle.{is_ok, is_managed, reconcile_each, listed, reconcile_all}

-- the gauge with this label after one operation
abbrev after_op : {F : Type 0} → String → Option F → MetricOp F → Option F
after_op label value (set reconciliation_status (l ∷ []) x) = if l == label then some x else value
after_op label value _ = value

module _ {F Q : Type 0} where
  -- the gauge with this label after these effects, from its value before
  abbrev pub gauge : String → Option F → List (Effect F Q) → Option F
  gauge label value [] = value
  gauge label value (metric op ∷ effects) = gauge label (after_op label value op) effects
  gauge label value (_ ∷ effects) = gauge label value effects

  gauge-append :
      (label : String) (value : Option F) (first rest : List (Effect F Q))
      → gauge label value (first ++ rest) ≡ gauge label (gauge label value first) rest
  gauge-append label value [] rest = refl
  gauge-append label value (Effect.metric op ∷ first) rest =
      gauge-append label (after_op label value op) first rest
  gauge-append label value (Effect.send p ∷ first) rest = gauge-append label value first rest
  gauge-append label value (Effect.event a b c ∷ first) rest = gauge-append label value first rest
  gauge-append label value (Effect.panic ∷ first) rest = gauge-append label value first rest

module _ {F Q S : Type 0} (env : Env F Q S) (schedule : List (Pvc Q) → List (Pvc Q))
    (response seconds finished : F) where
  -- In all branches of a cycle that comes to its end, since none of its goroutines panics, whatever
  -- they do else and whatever the gauges were before: at its end the gauge "success" is 1 and
  -- "failure" is 0 if the PVCs were listed and the metrics fetched, and "success" is 0 and
  -- "failure" is 1 if not.
  pub gauge-reconcile_all :
      (E : Type 0) (pvcs : Result ApiError (List (Pvc Q))) (volumes : Result E (MetricsCache F))
      (cache : StorageClassCache) (before : Option F)
      → has_panic (reconcile_all env schedule response seconds finished pvcs volumes cache).1
        ≡ false
      → let effects = (reconcile_all env schedule response seconds finished pvcs volumes cache).1 in
        (gauge "success" before effects
          ≡ some (env.lib.of_int (pos (if is_ok pvcs && is_ok volumes then 1 else 0))))
        × (gauge "failure" before effects
            ≡ some (env.lib.of_int (pos (if is_ok pvcs && is_ok volumes then 0 else 1))))
  unfolding reconcile_all listed record_kubernetes_client_request record_kubelet_client_request
  gauge-reconcile_all E (err e) volumes cache before up = (refl, refl)
  gauge-reconcile_all E (ok pvcs) (err e) cache before up =
      (unfold and_then has_panic in refl, unfold and_then has_panic in refl)
  gauge-reconcile_all E (ok pvcs) (ok volumes) cache before up =
      let managed = schedule (select (is_managed env) pvcs) in
      let each = (reconcile_each env volumes (clear cache) managed).1 in
      let all_up : has_panic each ≡ false =
        simp (has_panic-metrics-append, has_panic-and_then, has_panic-metrics, or_false) at up in
      let listed_up : has_panic
            (listed env schedule response seconds finished {E = E} (ok volumes) (clear cache)
              pvcs).1
          ≡ false =
        simp (has_panic-metrics-append, has_panic-and_then, has_panic-metrics, or_false) all_up in
      (
        rw (and_then-append _ _ listed_up, and_then-append each _ all_up) (simp gauge-append refl),
        rw (and_then-append _ _ listed_up, and_then-append each _ all_up) (simp gauge-append refl),
      )
