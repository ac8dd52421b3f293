-- ===== src/Reconcile/Start/Counted.antt =====
-- The counters that Start leads to, and how they agree with one another.
use pvc_chonker.Prelude.{
  ℕ, ◌+◌, ◌≤◌, String, Bool, true, false, ◌&&◌, ◌==◌, if◌then◌else◌, List, [], ◌∷◌, ◌++◌, ◌≡◌,
  arith, total,
}
use pvc_chonker.Kube.{Pvc}
use pvc_chonker.Libs.{Libs}
use pvc_chonker.Metrics.{
  inc, add, set, delete, observe, record_kubernetes_client_request, record_kubelet_client_request,
  update_pvc_metrics, update_pvc_inodes_metrics,
}
use pvc_chonker.Metrics.Registry.Names.{exported_name}
use pvc_chonker.Reconcile.Types.{Effect, metric, send, event, panic, metrics}
use pvc_chonker.Reconcile.Pvc.Courses.{
  Course, not_sized, above_limit, dry, no_requests, accepted, refused,
}
use pvc_chonker.Reconcile.Pvc.Blocks.{IsClosed}
use pvc_chonker.Reconcile.Start.{Reconciler, Round, start}
use pvc_chonker.Reconcile.Start.Blocks.{start-IsClosed}

abbrev same_labels : List String → List String → Bool
same_labels [] [] = true
same_labels [] (y ∷ ys) = false
same_labels (x ∷ xs) [] = false
same_labels (x ∷ xs) (y ∷ ys) = x == y && same_labels xs ys

module _ {F Q : Type 0} where
  -- what an effect adds to the counter with this name and these label values
  abbrev pub increment : String → List String → Effect F Q → ℕ
  increment name labels (metric (inc s values)) =
      if exported_name s == name && same_labels values labels then 1 else 0
  increment name labels (metric (add s x)) = 0
  increment name labels (metric (set s values x)) = 0
  increment name labels (metric (delete s values)) = 0
  increment name labels (metric (observe s x)) = 0
  increment name labels (send pvc) = 0
  increment name labels (event type reason message) = 0
  increment name labels panic = 0

  -- the value of the counter after these effects
  abbrev pub counted : String → List String → List (Effect F Q) → ℕ
  counted name labels es = total (increment name labels) es

  abbrev a_panic : Effect F Q → ℕ
  a_panic panic = 1
  a_panic (metric op) = 0
  a_panic (send pvc) = 0
  a_panic (event type reason message) = 0

  abbrev pub panics : List (Effect F Q) → ℕ
  panics es = total a_panic es

  total-append :
      (w : Effect F Q → ℕ) (es fs : List (Effect F Q))
      → total w (es ++ fs) ≡ total w es + total w fs
  total-append w [] fs = omega arith
  total-append w (e ∷ es) fs = omega (arith, total-append w es fs)

  -- How the counters agree: the failed requests are counted twice alike, and each threshold that a
  -- PVC reached ends in one success, one failed expansion or a panic.
  pub record AreBalanced (operation name namespace : String) (es : List (Effect F Q)) : Type 0 where
    pub kubernetes_failures :
        counted "pvcchonker_kubernetes_client_fail_total" (operation ∷ []) es
        ≡ counted "pvcchonker_kubernetes_client_requests_total" (operation ∷ "failed" ∷ []) es
    pub kubelet_failures :
        counted "pvcchonker_kubelet_client_fail_total" [] es
        ≡ counted "pvcchonker_kubelet_client_requests_total" ("failed" ∷ []) es
    pub ended :
        counted "pvcchonker_resizer_success_resize_total" (name ∷ namespace ∷ []) es
          + counted "pvcchonker_resizer_failed_resize_total"
              (name ∷ namespace ∷ "expansion_failed" ∷ [])
              es
        ≤ counted "pvcchonker_resizer_threshold_reached_total" (name ∷ namespace ∷ []) es
    pub or_panicked :
        counted "pvcchonker_resizer_threshold_reached_total" (name ∷ namespace ∷ []) es
        ≤ counted "pvcchonker_resizer_success_resize_total" (name ∷ namespace ∷ []) es
          + counted "pvcchonker_resizer_failed_resize_total"
              (name ∷ namespace ∷ "expansion_failed" ∷ [])
              es
          + panics es

  module _ (operation name namespace : String) where
    append-AreBalanced :
        (es fs : List (Effect F Q))
        → AreBalanced operation name namespace es
        → AreBalanced operation name namespace fs
        → AreBalanced operation name namespace (es ++ fs)
    append-AreBalanced es fs p q = omega (
      arith,
      both "pvcchonker_kubernetes_client_fail_total" (operation ∷ []),
      both "pvcchonker_kubernetes_client_requests_total" (operation ∷ "failed" ∷ []),
      both "pvcchonker_kubelet_client_fail_total" [],
      both "pvcchonker_kubelet_client_requests_total" ("failed" ∷ []),
      both "pvcchonker_resizer_success_resize_total" (name ∷ namespace ∷ []),
      both "pvcchonker_resizer_failed_resize_total" (name ∷ namespace ∷ "expansion_failed" ∷ []),
      both "pvcchonker_resizer_threshold_reached_total" (name ∷ namespace ∷ []),
      total-append a_panic es fs,
    )
      where
        both :
            (counter : String) (labels : List String)
            → counted counter labels (es ++ fs)
              ≡ counted counter labels es + counted counter labels fs
        both counter labels = total-append (increment counter labels) es fs

    Course-AreBalanced :
        (pvc : Pvc Q) (es : List (Effect F Q))
        → Course pvc es
        → AreBalanced operation name namespace es
    Course-AreBalanced pvc es (not_sized m e) = rw e (ground arith)
    Course-AreBalanced pvc es (above_limit m e) = rw e (ground arith)
    Course-AreBalanced pvc es (dry t r m e) = rw e (ground arith)
    Course-AreBalanced pvc es (no_requests e) = rw e (ground arith)
    Course-AreBalanced pvc es (accepted copy t r m e) = rw e (ground arith)
    Course-AreBalanced pvc es (refused copy m e) = rw e (ground arith)

    request-AreBalanced :
        (operation' status : String)
        → AreBalanced operation name namespace
            (metrics (record_kubernetes_client_request operation' status))
    unfolding record_kubernetes_client_request
    request-AreBalanced operation' status = ground arith

    kubelet-AreBalanced :
        (status : String)
        → AreBalanced operation name namespace (metrics (record_kubelet_client_request status))
    unfolding record_kubelet_client_request
    kubelet-AreBalanced status = ground arith

module _ {F Q S : Type 0} (operation name namespace : String) where
  AreBalanced-IsClosed : IsClosed S (AreBalanced {F = F} {Q = Q} operation name namespace)
  unfolding update_pvc_metrics update_pvc_inodes_metrics
  AreBalanced-IsClosed = record {
    nothing = ground arith;
    append = append-AreBalanced operation name namespace;
    kubernetes_request = request-AreBalanced operation name namespace;
    kubelet_request = kubelet-AreBalanced operation name namespace;
    not_expandable = λ pvc there. ground arith;
    not_measured = λ pvc there. ground arith;
    in_progress = λ pvc there. ground arith;
    cooling = λ pvc there. ground arith;
    usage = λ lib pvc there percent capacity. ground arith;
    inodes_usage = λ lib pvc there percent inodes. ground arith;
    course = Course-AreBalanced operation name namespace;
    status = λ label x. ground arith;
    managed = λ x. ground arith;
    last_time = λ x. ground arith;
    response_time = λ seconds. ground arith;
    loop_duration = λ seconds. ground arith;
  }

  -- The counters agree after all the cycles of Start, on every path through them. For each
  -- operation the count of failed requests to the API server is the count of its requests with the
  -- status "failed", and so is it for the kubelets. For each PVC the number of times that its
  -- threshold was reached is at least that of its successes and failed expansions together, and
  -- exceeds it by the number of panics at most.
  pub start-AreBalanced :
      (lib : Libs F Q S) (r : Reconciler F Q) (first : Round F Q S) (rounds : List (Round F Q S))
      → AreBalanced operation name namespace (start lib r first rounds)
  start-AreBalanced lib r first rounds =
      start-IsClosed AreBalanced-IsClosed lib r (ground arith) first rounds
