-- ===== src/PolicyStatus.antt =====
-- internal/controller/pvcpolicy_controller.go: the number of PVCs that a policy selects, and the
-- policies that a PVC's event leads to. Semaphore has the semaphore that bounds the reconciliations
-- in flight.
pub mod Agree
pub mod Semaphore
use pvc_chonker.Prelude.{
  ℕ, suc, String, Bool, true, false, Option, none, some, List, [], ◌∷◌, Result, ok, err, ◌*◌,
  if◌then◌else◌, Dict, length, select,
}
use pvc_chonker.Prelude.Int.{ℤ, pos, add64, int32_of}
use pvc_chonker.Kube.{Pvc, Policy, ApiError, NamespacedName, is_not_found}
use pvc_chonker.Libs.{Libs}

-- ctrl.Result with RequeueAfter, or an error
pub data Returned : Type 0 where
  requeue_after : ℤ → Returned
  failed : ApiError → Returned
  invalid_selector : Returned

module _ {F Q S : Type 0} (lib : Libs F Q S) where
  -- the loop that counts the PVCs; matchedCount is an int32
  unfoldable pub count_matches : (Option (Dict String) → Bool) → List (Pvc Q) → ℕ
  count_matches matches [] = 0
  count_matches matches (pvc ∷ pvcs) =
      let rest = count_matches matches pvcs in if matches pvc.labels then suc rest else rest

  -- Reconcile on the answers of Get, List and of the status update: the return, and the policy
  -- whose status is updated, if one is
  module _ (list_pvcs : String → Result ApiError (List (Pvc Q)))
      (status_update : Policy Q S → Option ApiError) (now : ℤ) where
    finish : Policy Q S → Returned × Option (Policy Q S)
    finish policy = elim (status_update policy) [
      | some e ↦ (failed e, some policy)
      | none ↦ (requeue_after (pos (5 * 60_000_000_000)), some policy)
    ]

    unfoldable pub reconcile : Result ApiError (Policy Q S) → Returned × Option (Policy Q S)
    unfolding finish
    reconcile (err e) = if is_not_found e then (requeue_after (pos 0), none) else (failed e, none)
    reconcile (ok policy) = elim (list_pvcs policy.namespace) [
      | err e ↦ (failed e, none)
      | ok pvcs ↦ elim (lib.selects policy.selector) [
        | none ↦ (invalid_selector, none)
        | some matches ↦ finish (record policy {
          status = record {
            matched_pvcs = int32_of (count_matches matches pvcs);
            last_updated = some now;
          };
        })
      ]
    ]

  -- the policy's selector is valid and matches the labels
  unfoldable pub selects_labels : Option (Dict String) → Policy Q S → Bool
  selects_labels labels policy = elim (lib.selects policy.selector) [
    | none ↦ false
    | some matches ↦ matches labels
  ]

  -- the loop over policies.Items
  requests_for : Option (Dict String) → List (Policy Q S) → List NamespacedName
  requests_for labels [] = []
  requests_for labels (policy ∷ policies) =
      let rest = requests_for labels policies in
      if selects_labels labels policy
      then record { namespace = policy.namespace; name = policy.name } ∷ rest
      else rest

  -- none stands for an object that is no PVC
  unfoldable pub find_pvc_policies_for_pvc :
      (String → Result ApiError (List (Policy Q S))) → Option (Pvc Q) → List NamespacedName
  unfolding requests_for selects_labels
  find_pvc_policies_for_pvc list_policies none = []
  find_pvc_policies_for_pvc list_policies (some pvc) = elim (list_policies pvc.namespace) [
    | err e ↦ []
    | ok policies ↦ requests_for pvc.labels policies
  ]
