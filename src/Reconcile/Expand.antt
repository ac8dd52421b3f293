-- ===== src/Reconcile/Expand.antt =====
-- ExpandPVC: the new size, its limit, and the update of a copy of the PVC.
use pvc_chonker.Prelude.{Option, none, some, List, [], ◌∷◌, Result, ok, err, if◌then◌else◌, insert}
use pvc_chonker.Kube.{Pvc, ApiError}
use pvc_chonker.Annotations.Types.{PvcConfig, SizeError}
use pvc_chonker.Annotations.Size.{calculate_new_size, exceeds_max_size}
use pvc_chonker.Annotations.Cooldown.{update_last_expansion}
use pvc_chonker.Metrics.{record_kubernetes_client_request, record_limit_reached}
use pvc_chonker.Reconcile.Types.{
  Env, ExpandError, size_failed, exceeds_max, update_failed, Effect, send, panic, metrics, storage,
  storage_of,
}

-- nil, an error, or a panic in place of a return
pub data Outcome (Q : Type 0) : Type 0 where
  done : Outcome Q
  failed : ExpandError Q → Outcome Q
  panicked : Outcome Q

module _ {F Q S : Type 0} (env : Env F Q S) where
  open env use {lib}

  -- the answer to the Update call
  answered : Option ApiError → Outcome Q × List (Effect F Q)
  answered none = (done, metrics (record_kubernetes_client_request "update_pvc" "success"))
  answered (some e) =
      (failed (update_failed e), metrics (record_kubernetes_client_request "update_pvc" "failed"))

  update_copy : Option (Pvc Q) → Outcome Q × List (Effect F Q)
  unfolding answered
  update_copy none = (panicked, panic ∷ [])
  update_copy (some pvc_copy) =
      let (outcome, effects) = answered (env.update pvc_copy) in (outcome, send pvc_copy ∷ effects)

  -- pvcCopy.Spec.Resources.Requests[storage] = newSize, which panics on a nil map, then
  -- UpdateLastExpansion(pvcCopy)
  unfoldable pub resized : Pvc Q → Q → Option (Pvc Q)
  resized pvc new_size = elim pvc.requests [
    | none ↦ none
    | some requests ↦
        update_last_expansion lib env.stamp
          (some (record pvc { requests = some (insert storage new_size requests) }))
  ]

  limited : Pvc Q → PvcConfig F Q → Q → Outcome Q × List (Effect F Q)
  unfolding update_copy resized
  limited pvc config new_size =
      if exceeds_max_size lib (some config) new_size
      then (
        failed (exceeds_max new_size config.max_size),
        metrics (record_limit_reached pvc.name pvc.namespace),
      )
      else if env.dry_run
      then (done, [])
      else update_copy (resized pvc new_size)

  sized : Pvc Q → PvcConfig F Q → Result SizeError Q → Outcome Q × List (Effect F Q)
  unfolding limited
  sized pvc config (err e) = (failed (size_failed e), [])
  sized pvc config (ok new_size) = limited pvc config new_size

  unfoldable pub expand_pvc : Pvc Q → PvcConfig F Q → Outcome Q × List (Effect F Q)
  unfolding sized
  expand_pvc pvc config =
      sized pvc config (calculate_new_size lib (some config) (storage_of lib pvc.capacity))
