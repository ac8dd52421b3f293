-- ===== src/Group/Members.antt =====
-- The members of a group, their largest request, and coordinatePVCSizes.
pub mod Largest
pub mod Coordinated
pub mod Converges
use pvc_chonker.Prelude.{
  ℕ, String, Bool, true, false, not, ◌&&◌, Option, none, some, List, [], ◌∷◌, ◌++◌, ◌==◌,
  if◌then◌else◌, Dict, lookup, lookup_nil, insert, get_or, is_gt, is_ge,
}
use pvc_chonker.Kube.{Pvc, Group, ApiError}
use pvc_chonker.Libs.{Libs}
use pvc_chonker.Annotations.Types.{annotation_enabled}
use pvc_chonker.Reconcile.Types.{storage, storage_of}
use pvc_chonker.Webhook.Mutator.{annotation_group}

-- The effects on the outside: an Update of a PVC, an event, an update of a group's status.
pub data Effect (Q : Type 0) : Type 0 where
  send : Pvc Q → Effect Q
  -- Event "PVCCoordinated": the PVC's name, the old size and the new
  coordinated : String → Q → Q → Effect Q
  -- Event "CoordinationFailed" with the error: the PVC's name and the API server's error
  coordination_failed : String → ApiError → Effect Q
  update_status : Group Q → Effect Q

-- nil, "failed to update PVC <name>", or a panic in place of a return
pub data Outcome : Type 0 where
  done : Outcome
  update_failed : String → ApiError → Outcome
  panicked : Outcome

-- the two tests of the loop over pvcList.Items
unfoldable pub is_active : {Q : Type 0} → String → Pvc Q → Bool
is_active group_name pvc = elim pvc.annotations [
  | none ↦ false
  | some annotations ↦
      if not (get_or (lookup annotation_group annotations) "" == group_name)
      then false
      else elim (lookup annotation_enabled annotations) [
        | none ↦ false
        | some enabled ↦ enabled == "true"
      ]
]

module _ {F Q S : Type 0} (lib : Libs F Q S) where
  -- pvc.Spec.Resources.Requests[storage]
  abbrev pub request : Pvc Q → Q
  request pvc = storage_of lib pvc.requests

  pub largest_from : Q → List (Pvc Q) → Q
  largest_from largest [] = largest
  largest_from largest (pvc ∷ pvcs) =
      largest_from (if is_gt (lib.cmp (request pvc) largest) then request pvc else largest) pvcs

  unfoldable pub calculate_largest_size : List (Pvc Q) → Q
  unfolding largest_from
  calculate_largest_size pvcs = largest_from lib.zero_quantity pvcs

  -- pvcCopy with the target size, or none where Requests is a nil map, on which the write panics
  unfoldable pub with_request : Pvc Q → Q → Option (Pvc Q)
  with_request pvc target_size = elim pvc.requests [
    | none ↦ none
    | some requests ↦ some (record pvc { requests = some (insert storage target_size requests) })
  ]

  module _ (update : Pvc Q → Option ApiError) where
    -- the Update of a copy, with its answer, before the rest of the loop
    pub updated : Pvc Q → Q → Outcome × List (Effect Q) → Option (Pvc Q) → Outcome × List (Effect Q)
    updated pvc target_size (outcome, effects) none = (panicked, [])
    updated pvc target_size (outcome, effects) (some copy) = elim (update copy) [
      | some e ↦ (update_failed pvc.name e, send copy ∷ [])
      | none ↦ (outcome, send copy ∷ coordinated pvc.name (request pvc) target_size ∷ effects)
    ]

    unfoldable pub coordinate_pvc_sizes : List (Pvc Q) → Q → Outcome × List (Effect Q)
    unfolding updated with_request
    coordinate_pvc_sizes [] target_size = (done, [])
    coordinate_pvc_sizes (pvc ∷ pvcs) target_size =
        let rest = coordinate_pvc_sizes pvcs target_size in
        if is_ge (lib.cmp (request pvc) target_size)
        then rest
        else updated pvc target_size rest (with_request pvc target_size)
