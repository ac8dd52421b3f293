-- ===== src/Reconcile/Start/Typed.antt =====
-- Every operation on a series that Start leads to, against the declarations of the series.
use pvc_chonker.Prelude.{
  String, Bool, true, false, List, [], ◌∷◌, refl, Bool-cases, inl, inr, All, All-append,
  if◌then◌else◌, ◌==◌,
}
use pvc_chonker.Prelude.Int.{ℤ, pos, ltb_ℤ}
use pvc_chonker.Kube.{Pvc}
use pvc_chonker.Libs.{Libs}
use pvc_chonker.Metrics.{
  MetricOp, record_kubernetes_client_request, record_kubelet_client_request, update_pvc_metrics,
  update_pvc_inodes_metrics,
}
use pvc_chonker.Metrics.Registry.{Fits}
use pvc_chonker.Reconcile.Types.{Effect, metric, send, event, panic, metrics}
use pvc_chonker.Reconcile.Pvc.Courses.{
  Course, not_sized, above_limit, dry, no_requests, accepted, refused,
}
use pvc_chonker.Reconcile.Pvc.Blocks.{IsClosed}
use pvc_chonker.Reconcile.Start.{Reconciler, Round, start}
use pvc_chonker.Reconcile.Start.Blocks.{start-IsClosed}

abbrev pub IsTyped : {F Q : Type 0} → Effect F Q → Type 0
IsTyped (metric op) = Fits op
IsTyped (send pvc) = Unit
IsTyped (event type reason message) = Unit
IsTyped panic = Unit

module _ {F : Type 0} where
  when : (b : Bool) (es : List (MetricOp F)) → All Fits es → All Fits (if b then es else [])
  when true es h = h
  when false es h = tt

  metrics-All :
      (Q : Type 0) (ops : List (MetricOp F))
      → All Fits ops
      → All (IsTyped {F = F} {Q = Q}) (metrics ops)
  metrics-All Q [] h = tt
  metrics-All Q (op ∷ ops) (f, h) = (f, metrics-All Q ops h)

request-All :
    (F : Type 0) (operation status : String)
    → All (Fits {F = F}) (record_kubernetes_client_request operation status)
unfolding record_kubernetes_client_request
request-All F operation status = ((refl, refl), when (status == "failed") _ ((refl, refl), tt))

kubelet-All :
    (F : Type 0) (status : String) → All (Fits {F = F}) (record_kubelet_client_request status)
unfolding record_kubelet_client_request
kubelet-All F status = ((refl, refl), when (status == "failed") _ ((refl, refl), tt))

module _ {F Q : Type 0} where
  inodes-All :
      {S : Type 0} (lib : Libs F Q S) (name namespace : String) (usage : F) (total : ℤ)
      → All Fits (update_pvc_inodes_metrics lib name namespace usage total)
  unfolding update_pvc_inodes_metrics
  inodes-All lib name namespace usage total = elim (Bool-cases (ltb_ℤ (pos 0) total)) [
    | inl some_inodes ↦ rw some_inodes ((refl, refl), ((refl, refl), tt))
    | inr no_inodes ↦ rw no_inodes ((λ e. cc, refl), ((λ e. cc, refl), tt))
  ]

  Course-All : (pvc : Pvc Q) (es : List (Effect F Q)) → Course pvc es → All IsTyped es
  Course-All pvc es (not_sized m e) = rw e ((refl, refl), ((refl, refl), (tt, tt)))
  Course-All pvc es (above_limit m e) =
      rw e ((refl, refl), ((refl, refl), ((refl, refl), (tt, tt))))
  Course-All pvc es (dry t r m e) = rw e ((refl, refl), ((refl, refl), (tt, tt)))
  Course-All pvc es (no_requests e) = rw e ((refl, refl), (tt, tt))
  Course-All pvc es (accepted copy t r m e) =
      rw e ((refl, refl), (tt, ((refl, refl), ((refl, refl), (tt, tt)))))
  Course-All pvc es (refused copy m e) =
      rw e ((refl, refl), (tt, ((refl, refl), ((refl, refl), ((refl, refl), (tt, tt))))))

module _ {F Q S : Type 0} where
  All-IsClosed : IsClosed S (All (IsTyped {F = F} {Q = Q}))
  unfolding update_pvc_metrics
  All-IsClosed = record {
    nothing = tt;
    append = λ es fs h k. All-append IsTyped es fs h k;
    kubernetes_request = λ operation status. metrics-All Q _ (request-All F operation status);
    kubelet_request = λ status. metrics-All Q _ (kubelet-All F status);
    not_expandable = λ name namespace. ((refl, refl), tt);
    not_measured = λ name namespace. ((refl, refl), tt);
    in_progress = λ name namespace. ((refl, refl), tt);
    cooling = λ name namespace. ((refl, refl), tt);
    usage = λ lib name namespace usage capacity. ((refl, refl), ((refl, refl), tt));
    inodes_usage = λ lib name namespace usage total.
        metrics-All Q _ (inodes-All lib name namespace usage total);
    course = Course-All;
    status = λ label x. ((refl, refl), tt);
    managed = λ x. ((refl, refl), tt);
    last_time = λ x. ((refl, refl), tt);
    response_time = λ seconds. ((refl, refl), tt);
    loop_duration = λ seconds. ((refl, refl), tt);
  }

  -- Every operation on a series, in all the cycles of Start and on every path through them, fits
  -- the declaration of the series: it has the kind that the series is declared with, and as many
  -- label values as the series has labels. So none of these calls of WithLabelValues panics.
  pub start-IsTyped :
      (lib : Libs F Q S) (r : Reconciler F Q) (first : Round F Q S) (rounds : List (Round F Q S))
      → All IsTyped (start lib r first rounds)
  start-IsTyped lib r first rounds = start-IsClosed All-IsClosed lib r (tt, tt) first rounds
