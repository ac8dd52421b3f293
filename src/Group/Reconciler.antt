-- ===== src/Group/Reconciler.antt =====
-- Reconcile of the group controller below the lock, and the group that a PVC's event leads to. The
-- mutexes of statusLocks are in Locks.
use pvc_chonker.Prelude.{
  ℕ, String, Bool, true, false, Option, none, some, List, [], ◌∷◌, ◌++◌, ◌*◌, Result, ok, err,
  if◌then◌else◌, length, select,
}
use pvc_chonker.Prelude.Int.{ℤ, pos, int32_of}
use pvc_chonker.Kube.{Pvc, Group, ApiError, NamespacedName, is_not_found}
use pvc_chonker.Libs.{Libs}
use pvc_chonker.Webhook.Mutator.{group_of}
use pvc_chonker.Group.Members.{
  Effect, coordination_failed, update_status, Outcome, done, update_failed, panicked, is_active,
  calculate_largest_size, coordinate_pvc_sizes,
}

-- What Reconcile returns: ctrl.Result with RequeueAfter in nanoseconds (0: none), and an error.
pub data Returned : Type 0 where
  requeue_after : ℤ → Returned
  failed : ApiError → Returned
  failed_after : ℤ → Outcome → Returned
  status_failed : ℤ → ApiError → Returned
  crashed : Returned

abbrev pub minutes : ℕ → ℤ
minutes n = pos (n * 60_000_000_000)

module _ {F Q S : Type 0} (lib : Libs F Q S) (update : Pvc Q → Option ApiError)
    (status_update : Group Q → Option ApiError) (now : ℤ) where
  -- the last update of the status, and the return
  finish : Group Q → List (Effect Q) → Returned × List (Effect Q)
  finish group effects = elim (status_update group) [
    | some e ↦ (status_failed (pos 5_000_000_000) e, effects ++ update_status group ∷ [])
    | none ↦ (requeue_after (minutes 10), effects ++ update_status group ∷ [])
  ]

  -- the answer of coordinatePVCSizes
  after_coordination : Group Q → Outcome × List (Effect Q) → Returned × List (Effect Q)
  unfolding finish
  after_coordination group (done, effects) = finish group effects
  after_coordination group (update_failed name e, effects) =
      (failed_after (minutes 5) (update_failed name e), effects ++ coordination_failed name e ∷ [])
  after_coordination group (panicked, effects) = (crashed, effects)

  -- the status before the coordination: MemberCount and LastUpdated
  counted : Group Q → List (Pvc Q) → Group Q
  counted group active = record group {
    status = record group.status {
      member_count = int32_of (length active);
      last_updated = some now;
    };
  }

  with_current_size : Group Q → Q → Group Q
  with_current_size group size = record group {
    status = record group.status { current_size = some size };
  }

  -- the active members, below the two calls
  unfoldable pub reconcile_members : Group Q → List (Pvc Q) → Returned × List (Effect Q)
  unfolding finish after_coordination counted with_current_size
  reconcile_members group [] = finish (counted group []) []
  reconcile_members group (pvc ∷ pvcs) =
      let size = calculate_largest_size lib (pvc ∷ pvcs) in
      after_coordination (with_current_size (counted group (pvc ∷ pvcs)) size)
        (coordinate_pvc_sizes lib update (pvc ∷ pvcs) size)

  -- Reconcile on the answers of Get for the group and of List for the PVCs of its namespace. A
  -- group that is gone also has its mutex taken out of statusLocks, which the flag says.
  unfoldable pub reconcile :
      Result ApiError (Group Q)
      → (String → Result ApiError (List (Pvc Q)))
      → Returned × List (Effect Q) × Bool
  reconcile (err e) list_pvcs =
      if is_not_found e then (requeue_after (pos 0), [], true) else (failed e, [], false)
  reconcile (ok group) list_pvcs = elim (list_pvcs group.namespace) [
    | err e ↦ (failed e, [], false)
    | ok pvcs ↦
        let (returned, effects) = reconcile_members group (select (is_active group.name) pvcs) in
        (returned, effects, false)
  ]

-- the requests for the group that a PVC names; none stands for an object that is no PVC
unfoldable pub find_pvc_group_for_pvc : {Q : Type 0} → Option (Pvc Q) → List NamespacedName
find_pvc_group_for_pvc none = []
find_pvc_group_for_pvc (some pvc) = elim pvc.annotations [
  | none ↦ []
  | some annotations ↦ elim (group_of annotations) [
    | none ↦ []
    | some name ↦ record { namespace = pvc.namespace; name = name } ∷ []
  ]
]
