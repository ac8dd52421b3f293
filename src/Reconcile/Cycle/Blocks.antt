-- ===== src/Reconcile/Cycle/Blocks.antt =====
-- The effects of one cycle as a sequence of blocks.
use mathlib.Core.List.{map-append}
use pvc_chonker.Prelude.{Bool-cases, inl, inr, List, [], ◌∷◌, ◌++◌, Result, ok, err, String}
use pvc_chonker.Kube.{Pvc, ApiError}
use pvc_chonker.Metrics.{
  MetricOp, record_kubernetes_client_request, record_kubelet_client_request, record_loop_duration,
}
use pvc_chonker.StorageCache.{StorageClassCache, clear}
use pvc_chonker.Kubelet.Cache.{MetricsCache}
use pvc_chonker.Reconcile.Types.{Env, Effect, metric, metrics, has_panic, and_then}
use pvc_chonker.Reconcile.Pvc.{reconcile_pvc}
use pvc_chonker.Reconcile.Pvc.Blocks.{IsClosed, reconcile_pvc-IsClosed}
use pvc_chonker.Reconcile.Cycle.{reconcile_each, listed, reconcile_all, status}

module _ {F Q S : Type 0} {P : List (Effect F Q) → Type 0} (closed : IsClosed S P) where
  metrics-append-IsClosed :
      (a b : List (MetricOp F)) → P (metrics a) → P (metrics b) → P (metrics (a ++ b))
  metrics-append-IsClosed a b p q =
      let split = map-append {B = Effect F Q} metric a b in rw split (closed.append _ _ p q)

  -- So too of a list that a panic may cut off.
  pub and_then-IsClosed : (es fs : List (Effect F Q)) → P es → P fs → P (and_then es fs)
  unfolding and_then
  and_then-IsClosed es fs p q = elim (Bool-cases (has_panic es)) [
    | inl down ↦ rw down p
    | inr up ↦ rw up (closed.append es fs p q)
  ]

  module _ (env : Env F Q S) where
    reconcile_each-IsClosed :
        (volumes : MetricsCache F) (cache : StorageClassCache) (pvcs : List (Pvc Q))
        → P (reconcile_each env volumes cache pvcs).1
    unfolding reconcile_each
    reconcile_each-IsClosed volumes cache [] = closed.nothing
    reconcile_each-IsClosed volumes cache (pvc ∷ pvcs) =
        and_then-IsClosed _ _ (reconcile_pvc-IsClosed closed env pvc volumes cache)
          (reconcile_each-IsClosed volumes (reconcile_pvc env volumes cache pvc).0 pvcs)

    status-IsClosed : (first second : String) → P (metrics (status env first second))
    status-IsClosed first second =
        closed.append _ _ (closed.status first _) (closed.status second _)

    module _ (schedule : List (Pvc Q) → List (Pvc Q)) (response seconds finished : F) where
      listed-IsClosed :
          {E : Type 0} (volumes : Result E (MetricsCache F)) (cache : StorageClassCache)
          (pvcs : List (Pvc Q))
          → P (listed env schedule response seconds finished volumes cache pvcs).1
      unfolding listed
      listed-IsClosed (err e) cache pvcs = closed.append _ _ (closed.response_time response) (
          metrics-append-IsClosed (record_kubelet_client_request "failed")
            (status env "failure" "success") (closed.kubelet_request "failed")
            (status-IsClosed "failure" "success"))
      listed-IsClosed (ok volumes) cache pvcs =
          closed.append _ _
            (closed.append _ _ (closed.response_time response) (
              metrics-append-IsClosed (record_kubelet_client_request "success") (_ ∷ [])
                (closed.kubelet_request "success") (closed.managed _)))
            (and_then-IsClosed _ _ (reconcile_each-IsClosed volumes cache _) (
              metrics-append-IsClosed (record_loop_duration seconds)
                (status env "success" "failure") (closed.loop_duration seconds)
                (status-IsClosed "success" "failure")))

      pub reconcile_all-IsClosed :
          {E : Type 0} (pvcs : Result ApiError (List (Pvc Q))) (volumes : Result E (MetricsCache F))
          (cache : StorageClassCache)
          → P (reconcile_all env schedule response seconds finished pvcs volumes cache).1
      unfolding reconcile_all
      reconcile_all-IsClosed (err e) volumes cache =
          metrics-append-IsClosed (record_kubernetes_client_request "list_pvcs" "failed") _
            (closed.kubernetes_request "list_pvcs" "failed")
            (metrics-append-IsClosed (status env "failure" "success") (_ ∷ [])
              (status-IsClosed "failure" "success") (closed.last_time finished))
      reconcile_all-IsClosed (ok pvcs) volumes cache =
          closed.append _ _ (closed.kubernetes_request "list_pvcs" "success") (
            and_then-IsClosed _ _ (listed-IsClosed volumes (clear cache) pvcs)
              (closed.last_time finished))
