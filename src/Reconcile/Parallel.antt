-- ===== src/Reconcile/Parallel.antt =====
-- The goroutines of reconcileAll, one for each managed PVC, interleaved in any order. A step of a
-- goroutine is one access to what they share: the semaphore, and the cache of storage classes,
-- whose mutex makes each of its calls one step. Between two such accesses a goroutine works alone.
-- The last step of a goroutine also gives its place in the semaphore back, after a panic too, since
-- that is deferred; then the program has ended, and no goroutine takes a step.
pub mod Sends
pub mod Known
pub mod Invariant
pub mod Terminates
pub mod Progress
pub mod Ends
pub mod Race
use pvc_chonker.Prelude.{
  ℕ, suc, ◌-◌, String, Bool, true, false, Option, none, some, List, [], ◌∷◌, ◌++◌, ok, err, ◌≡◌,
  eqb, if◌then◌else◌, map, ◌||◌,
}
use pvc_chonker.Prelude.Int.{ℤ, pos, pos_part, leb_ℤ}
use pvc_chonker.Kube.{Pvc, StorageClass}
use pvc_chonker.Annotations.Types.{PvcConfig}
use pvc_chonker.Annotations.Policies.{resolve_pvc_config}
use pvc_chonker.Metrics.{record_kubernetes_client_request}
use pvc_chonker.StorageCache.{StorageClassCache, get, set, set_fs_type}
use pvc_chonker.Kubelet.Cache.{MetricsCache}
use pvc_chonker.Reconcile.Types.{Env, Effect, metrics, has_panic}
use pvc_chonker.Reconcile.Class.{is_pvc_eligible, class_expandable, class_fs_type}
use pvc_chonker.Reconcile.Pvc.{class_checked}

-- Where the goroutine of a PVC stands, with the local variables that are live there.
pub data Phase (F Q : Type 0) : Type 0 where
  -- before `semaphore <- struct{}{}`
  waiting : Phase F Q
  -- at the start of reconcilePVC
  starting : Phase F Q
  -- in IsStorageClassExpandable, the class was not in the cache
  fetching : PvcConfig F Q → String → Phase F Q
  -- between storageCache.Set and storageCache.SetFsType
  storing : PvcConfig F Q → String → StorageClass → Phase F Q
  -- IsStorageClassExpandable has returned, with these effects
  answered : PvcConfig F Q → Bool → List (Effect F Q) → Phase F Q
  -- the semaphore is given back
  finished : List (Effect F Q) → Phase F Q

-- What the goroutines share: the cache, and the places left in the semaphore.
pub record Shared : Type 0 where
  pub cache : StorageClassCache
  pub free : ℕ

pub record Worker (F Q : Type 0) : Type 0 where
  pub pvc : Pvc Q
  pub phase : Phase F Q

pub record System (F Q : Type 0) : Type 0 where
  pub shared : Shared
  pub workers : List (Worker F Q)

module _ {F Q : Type 0} where
  abbrev pub effects_of : Phase F Q → List (Effect F Q)
  effects_of (finished effects) = effects
  effects_of _ = []

  -- A goroutine has panicked, and so the program has ended.
  unfoldable pub is_down : List (Worker F Q) → Bool
  is_down [] = false
  is_down (worker ∷ workers) = has_panic (effects_of worker.phase) || is_down workers

module _ {F Q S : Type 0} (env : Env F Q S) (volumes : MetricsCache F) where
  open env use {lib}

  -- `<-semaphore` of the deferred call
  give_back : Shared → List (Effect F Q) → Shared × Phase F Q
  give_back shared effects = (record shared { free = suc shared.free }, finished effects)

  -- the first lines of IsStorageClassExpandable
  look_up : Shared → PvcConfig F Q → Option String → Shared × Phase F Q
  look_up shared config none = (shared, answered config false [])
  look_up shared config (some sc_name) = elim (get shared.cache sc_name) [
    | some expandable ↦ (shared, answered config expandable [])
    | none ↦ (shared, fetching config sc_name)
  ]

  -- reconcilePVC up to the look into the cache
  begin : Shared → Pvc Q → Shared × Phase F Q
  unfolding give_back look_up
  begin shared pvc = elim (resolve_pvc_config lib env.list_policies pvc env.global) [
    | err e ↦ give_back shared []
    | ok config ↦
        if is_pvc_eligible pvc
        then look_up shared config pvc.storage_class_name
        else give_back shared []
  ]

  -- r.Get for the class, and storageCache.Set
  fetch : Shared → PvcConfig F Q → String → Shared × Phase F Q
  fetch shared config sc_name = elim (env.get_storage_class sc_name) [
    | err e ↦ (
      shared,
      answered config false
          (metrics (record_kubernetes_client_request "get_storageclass" "failed")),
    )
    | ok sc ↦ (
      record shared { cache = set shared.cache sc_name (class_expandable sc) },
      storing config sc_name sc,
    )
  ]

  -- The next step of a goroutine, none where it has to wait or is finished.
  unfoldable pub advance : Shared → Pvc Q → Phase F Q → Option (Shared × Phase F Q)
  unfolding give_back begin fetch
  advance shared pvc waiting =
      if eqb shared.free 0 then none else some (record shared { free = shared.free - 1 }, starting)
  advance shared pvc starting = some (begin shared pvc)
  advance shared pvc (fetching config sc_name) = some (fetch shared config sc_name)
  advance shared pvc (storing config sc_name sc) = some (
    record shared { cache = set_fs_type shared.cache sc_name (class_fs_type sc) },
    answered config (class_expandable sc)
        (metrics (record_kubernetes_client_request "get_storageclass" "success")),
  )
  advance shared pvc (answered config expandable calls) =
      some (
        give_back shared (class_checked env volumes pvc config (expandable, shared.cache, calls)).1)
  advance shared pvc (finished effects) = none

  -- One goroutine takes its next step, while none has panicked.
  pub data Step (s : System F Q) : System F Q → Type 0 where
    pick :
        (before after : List (Worker F Q)) (worker : Worker F Q) {shared : Shared}
        {phase : Phase F Q}
        → is_down s.workers ≡ false
        → s.workers ≡ before ++ worker ∷ after
        → advance s.shared worker.pvc worker.phase ≡ some (shared, phase)
        → Step s (record {
          shared = shared;
          workers = before ++ record worker { phase = phase } ∷ after;
        })

  -- `n` steps, one after the other
  pub data Steps (s : System F Q) : ℕ → System F Q → Type 0 where
    start : Steps s 0 s
    later : {n : ℕ} {t u : System F Q} → Steps s n t → Step t u → Steps s (suc n) u

-- r.MaxParallel after Start has set its default, which is the number of places in the semaphore
unfoldable pub parallelism : ℤ → ℕ
parallelism max_parallel = if leb_ℤ max_parallel (pos 0) then 4 else pos_part max_parallel

abbrev pub launched : {F Q : Type 0} → Pvc Q → Worker F Q
launched pvc = record { pvc = pvc; phase = waiting }

-- The goroutines of these PVCs at their start, with this cache and so many places.
abbrev pub launch : {F Q : Type 0} → StorageClassCache → ℕ → List (Pvc Q) → System F Q
launch cache parallel pvcs = record {
  shared = record { cache = cache; free = parallel };
  workers = map launched pvcs;
}
