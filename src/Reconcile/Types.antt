-- ===== src/Reconcile/Types.antt =====
-- What one reconciliation of a PVC reads from outside, and the effects that it has there.
use pvc_chonker.Prelude.{
  String, Bool, true, false, Option, List, [], ◌∷◌, ◌++◌, Result, Dict, lookup_nil, get_or, map,
  if◌then◌else◌,
}
use pvc_chonker.Prelude.Int.{ℤ}
use pvc_chonker.Kube.{Pvc, Policy, StorageClass, ApiError, NamespacedName}
use pvc_chonker.Libs.{Libs}
use pvc_chonker.Annotations.Types.{GlobalConfig, SizeError}
use pvc_chonker.Metrics.{MetricOp}

-- The fields of the reconciler that stay fixed, what the API server answers to each call, and what
-- the clock reads in IsInCooldown (`now`) and in UpdateLastExpansion (`stamp`). `update` answers
-- none where the update is accepted.
pub record Env (F Q S : Type 0) : Type 0 where
  pub lib : Libs F Q S
  pub global : GlobalConfig F Q
  pub dry_run : Bool
  pub list_policies : String → Result ApiError (List (Policy Q S))
  pub get_storage_class : String → Result ApiError StorageClass
  pub update : Pvc Q → Option ApiError
  pub now : ℤ
  pub stamp : ℤ

-- The errors of ExpandPVC.
pub data ExpandError (Q : Type 0) : Type 0 where
  size_failed : SizeError → ExpandError Q
  exceeds_max : Q → Q → ExpandError Q
  update_failed : ApiError → ExpandError Q

-- The text of an event: the sizes before and after, the usage and the inode usage where they are
-- given, and the file system.
pub data Message (F Q : Type 0) : Type 0 where
  failed_to_expand : ExpandError Q → Message F Q
  expanded_inode_pressure : Q → Q → F → F → String → Message F Q
  expanded_fixed_inodes : Q → Q → F → F → String → Message F Q
  expanded_with_inodes : Q → Q → F → F → Message F Q
  expanded : Q → Q → F → Message F Q

pub data Effect (F Q : Type 0) : Type 0 where
  metric : MetricOp F → Effect F Q
  -- an Update call for this object, whatever the answer
  send : Pvc Q → Effect F Q
  -- Eventf(pvc, type, reason, ...)
  event : String → String → Message F Q → Effect F Q
  -- a write to a nil map, which ends the program
  panic : Effect F Q

-- The goroutine of these effects panics, and nothing in the program recovers from that.
unfoldable pub has_panic : {F Q : Type 0} → List (Effect F Q) → Bool
has_panic [] = false
has_panic (metric op ∷ es) = has_panic es
has_panic (send pvc ∷ es) = has_panic es
has_panic (event type reason message ∷ es) = has_panic es
has_panic (panic ∷ es) = true

-- These effects and then `rest`, which comes too late where a panic has ended the program.
unfoldable pub and_then : {F Q : Type 0} → List (Effect F Q) → List (Effect F Q) → List (Effect F Q)
and_then es rest = if has_panic es then es else es ++ rest

abbrev pub metrics : {F Q : Type 0} → List (MetricOp F) → List (Effect F Q)
metrics ops = map metric ops

-- corev1.ResourceStorage
abbrev pub storage : String
storage = "storage"

-- the quantity for storage in a resource list, or the zero quantity
abbrev pub storage_of : {F Q S : Type 0} → Libs F Q S → Option (Dict Q) → Q
storage_of lib resources = get_or (lookup_nil storage resources) lib.zero_quantity

abbrev pub namespaced_name : {Q : Type 0} → Pvc Q → NamespacedName
namespaced_name pvc = record { namespace = pvc.namespace; name = pvc.name }
