-- ===== src/Reconcile/Cycle.antt =====
-- reconcileAll: one cycle over all PVCs. Each goroutine's reconcilePVC is one step, and the order
-- in which the goroutines take the semaphore is an argument, `schedule`; Parallel interleaves them.
-- What the clock says at the end is an argument too: the seconds that the cycle took and the time
-- in seconds. So are the seconds that GetAllVolumeMetrics took, which it observes in the histogram
-- of response times. A panic of one goroutine ends the program: the goroutines that come after it
-- in the schedule do nothing, and neither does what follows wg.Wait, the deferred call included.
pub mod Order
pub mod Status
pub mod Blocks
use pvc_chonker.Prelude.{
  String, Bool, true, false, Option, none, some, List, [], ◌∷◌, ◌++◌, Result, ok, err, select,
  length, ℕ,
}
use pvc_chonker.Prelude.Int.{ℤ, pos}
use pvc_chonker.Kube.{Pvc, ApiError}
use pvc_chonker.Annotations.Policies.{ResolveError, resolve_pvc_config}
use pvc_chonker.Metrics.{
  MetricOp, set, observe, kubelet_client_response_time, record_kubernetes_client_request,
  record_kubelet_client_request, record_loop_duration, reconciliation_status, managed_pvcs_total,
  last_reconciliation_time,
}
use pvc_chonker.StorageCache.{StorageClassCache, clear}
use pvc_chonker.Kubelet.Cache.{MetricsCache}
use pvc_chonker.Reconcile.Types.{Env, Effect, metrics, and_then}
use pvc_chonker.Reconcile.Pvc.{reconcile_pvc}

abbrev pub is_ok : {E A : Type 0} → Result E A → Bool
is_ok (ok a) = true
is_ok (err e) = false

module _ {F Q S : Type 0} (env : Env F Q S) where
  open env use {lib}

  -- err == nil for ResolvePVCConfig
  unfoldable pub is_managed : Pvc Q → Bool
  is_managed pvc = is_ok (resolve_pvc_config lib env.list_policies pvc env.global)

  -- the goroutines, one after the other
  unfoldable pub reconcile_each :
      MetricsCache F → StorageClassCache → List (Pvc Q) → StorageClassCache × List (Effect F Q)
  reconcile_each volumes cache [] = (cache, [])
  reconcile_each volumes cache (pvc ∷ pvcs) =
      let (cache', effects) = reconcile_pvc env volumes cache pvc in
      let (last, rest) = reconcile_each volumes cache' pvcs in (last, and_then effects rest)

  -- the two gauges of ReconciliationStatus, `first` set to 1 and then `second` to 0
  abbrev status : String → String → List (MetricOp F)
  status first second =
      set reconciliation_status (first ∷ []) (lib.of_int (pos 1))
      ∷ set reconciliation_status (second ∷ []) (lib.of_int (pos 0))
      ∷ []

  module _ (schedule : List (Pvc Q) → List (Pvc Q)) (response seconds finished : F) where
    -- below the List call
    pub listed :
        {E : Type 0}
        → Result E (MetricsCache F)
        → StorageClassCache
        → List (Pvc Q)
        → StorageClassCache × List (Effect F Q)
    listed (err e) cache pvcs = (
      cache,
      metrics (
          observe kubelet_client_response_time response
          ∷ (record_kubelet_client_request "failed" ++ status "failure" "success")),
    )
    listed (ok volumes) cache pvcs =
        let managed = select is_managed pvcs in
        let (cache', effects) = reconcile_each volumes cache (schedule managed) in
        (
          cache',
          metrics (
                observe kubelet_client_response_time response
                ∷ (record_kubelet_client_request "success"
                    ++ set managed_pvcs_total [] (lib.of_int (pos (length managed))) ∷ []))
              ++ and_then effects
                  (metrics (record_loop_duration seconds ++ status "success" "failure")),
        )

    unfoldable pub reconcile_all :
        {E : Type 0}
        → Result ApiError (List (Pvc Q))
        → Result E (MetricsCache F)
        → StorageClassCache
        → StorageClassCache × List (Effect F Q)
    unfolding listed
    reconcile_all (err e) volumes cache = (
      clear cache,
      metrics (
          record_kubernetes_client_request "list_pvcs" "failed"
          ++ (status "failure" "success" ++ set last_reconciliation_time [] finished ∷ [])),
    )
    reconcile_all (ok pvcs) volumes cache =
        let (cache', effects) = listed volumes (clear cache) pvcs in
        (
          cache',
          metrics (record_kubernetes_client_request "list_pvcs" "success")
              ++ and_then effects (metrics (set last_reconciliation_time [] finished ∷ [])),
        )
