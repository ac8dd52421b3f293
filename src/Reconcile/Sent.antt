-- ===== src/Reconcile/Sent.antt =====
-- The Update calls among the effects of a reconciliation.
use pvc_chonker.Prelude.{
  Result-cases, false, some, List, [], ◌∷◌, ◌++◌, ok, ◌≡◌, refl, arith, ap, Option-cases,
  Bool-cases, inl, inr, ◌⊎◌,
}
use pvc_chonker.Kube.{Pvc}
use pvc_chonker.Annotations.Types.{PvcConfig}
use pvc_chonker.Annotations.Size.{calculate_new_size, exceeds_max_size}
use pvc_chonker.Metrics.{MetricOp, record_kubernetes_client_request}
use pvc_chonker.Reconcile.Types.{Env, Effect, metric, send, event, panic, metrics, storage_of}
use pvc_chonker.Reconcile.Expand.{expand_pvc, resized}

module _ {F Q : Type 0} where
  -- the objects of the Update calls, in order
  unfoldable pub sent : List (Effect F Q) → List (Pvc Q)
  sent [] = []
  sent (send pvc ∷ es) = pvc ∷ sent es
  sent (metric op ∷ es) = sent es
  sent (event type reason message ∷ es) = sent es
  sent (panic ∷ es) = sent es

  pub sent-append : (es fs : List (Effect F Q)) → sent (es ++ fs) ≡ sent es ++ sent fs
  unfolding sent
  sent-append [] fs = refl
  sent-append (send pvc ∷ es) fs = ap (λ l. pvc ∷ l) (sent-append es fs)
  sent-append (metric op ∷ es) fs = sent-append es fs
  sent-append (event type reason message ∷ es) fs = sent-append es fs
  sent-append (panic ∷ es) fs = sent-append es fs

  pub sent-metrics : (ops : List (MetricOp F)) → sent (metrics {Q = Q} ops) ≡ []
  unfolding sent
  sent-metrics [] = refl
  sent-metrics (op ∷ ops) = sent-metrics ops

  pub sent-metrics-append :
      (ops : List (MetricOp F)) (es : List (Effect F Q)) → sent (metrics ops ++ es) ≡ sent es
  unfolding sent
  sent-metrics-append [] es = refl
  sent-metrics-append (op ∷ ops) es = sent-metrics-append ops es

-- What ExpandPVC sends: the copy of the PVC with the new size and the stamp, where the new size is
-- computed, does not exceed the limit, and no dry run is on.
pub record Sends {F Q S : Type 0} (env : Env F Q S) (pvc : Pvc Q) (config : PvcConfig F Q)
    (copy : Pvc Q) : Type 0 where
  pub new_size : Q
  pub sized :
      calculate_new_size env.lib (some config) (storage_of env.lib pvc.capacity) ≡ ok new_size
  pub within : exceeds_max_size env.lib (some config) new_size ≡ false
  pub wet : env.dry_run ≡ false
  pub copied : resized env pvc new_size ≡ some copy

module _ {F Q S : Type 0} (env : Env F Q S) (pvc : Pvc Q) (config : PvcConfig F Q) where
  pub sent-expand_pvc_of_Sends :
      (copy : Pvc Q) → Sends env pvc config copy → sent (expand_pvc env pvc config).1 ≡ copy ∷ []
  unfolding expand_pvc sent record_kubernetes_client_request
  sent-expand_pvc_of_Sends copy s = ground arith

  pub sent-expand_pvc :
      (sent (expand_pvc env pvc config).1 ≡ []) ⊎ ((copy : Pvc Q) × Sends env pvc config copy)
  unfolding expand_pvc sent record_kubernetes_client_request
  sent-expand_pvc =
      elim (Result-cases
        (calculate_new_size env.lib (some config) (storage_of env.lib pvc.capacity))) [
          | inl (e, wrong) ↦ inl (ground arith)
          | inr (new_size, sized) ↦
              elim (Bool-cases (exceeds_max_size env.lib (some config) new_size)) [
                | inl over ↦ inl (ground arith)
                | inr within ↦ elim (Bool-cases env.dry_run) [
                  | inl dry ↦ inl (ground arith)
                  | inr wet ↦ elim (Option-cases (resized env pvc new_size)) [
                    | inl nil_map ↦ inl (ground arith)
                    | inr (copy, copied) ↦ inr (
                      copy,
                      record {
                        new_size = new_size;
                        sized = sized;
                        within = within;
                        wet = wet;
                        copied = copied;
                      },
                    )
                  ]
                ]
              ]
        ]
