-- ===== src/Reconcile/Parallel/Race.antt =====
-- storageCache.Set and storageCache.SetFsType are two steps, and another goroutine may come
-- between.
use pvc_chonker.Prelude.{
  ℕ, suc, String, Bool, true, none, some, [], ◌∷◌, ok, ◌≡◌, refl, arith, lookup, lookup-insert_self,
}
use pvc_chonker.Kube.{Pvc, StorageClass}
use pvc_chonker.Annotations.Types.{PvcConfig}
use pvc_chonker.Annotations.Policies.{resolve_pvc_config}
use pvc_chonker.StorageCache.{StorageClassCache, get, set, get_fs_type, clear}
use pvc_chonker.Kubelet.Cache.{MetricsCache}
use pvc_chonker.Reconcile.Types.{Env, has_panic}
use pvc_chonker.Reconcile.Class.{is_pvc_eligible, class_expandable, get_filesystem_type}
use pvc_chonker.Reconcile.Parallel.{
  Phase, waiting, starting, fetching, storing, answered, Shared, Worker, System, look_up, begin,
  fetch, advance, pick, Steps, start, later, launch, is_down,
}

get-clear : (cache : StorageClassCache) (name : String) → get (clear cache) name ≡ none
unfolding get clear lookup
get-clear cache name = refl

get-set_self :
    (cache : StorageClassCache) (name : String) (b : Bool) → get (set cache name b) name ≡ some b
unfolding get set
get-set_self cache name b = lookup-insert_self name b cache.cache

get_fs_type-clear :
    (cache : StorageClassCache) (name : String) → get_fs_type (clear cache) name ≡ none
unfolding get_fs_type clear lookup
get_fs_type-clear cache name = refl

get_filesystem_type-unset :
    (cache : StorageClassCache) (name : String) (b : Bool)
    → get_fs_type cache name ≡ none
    → get_filesystem_type (set cache name b) (some name) ≡ "ext4"
unfolding set get_fs_type get_filesystem_type
get_filesystem_type-unset cache name b e = rw e refl

module _ {F Q S : Type 0} (env : Env F Q S) (volumes : MetricsCache F) (name : String)
    (sc : StorageClass) where
  -- The PVC is managed with this configuration, eligible, and of the class.
  pub record IsOfClass (pvc : Pvc Q) (config : PvcConfig F Q) : Type 0 where
    pub resolved : resolve_pvc_config env.lib env.list_policies pvc env.global ≡ ok config
    pub eligible : is_pvc_eligible pvc ≡ true
    pub named : pvc.storage_class_name ≡ some name

  advance_miss :
      (shared : Shared) (pvc : Pvc Q) (config : PvcConfig F Q)
      → IsOfClass pvc config
      → get shared.cache name ≡ none
      → advance env volumes shared pvc starting ≡ some (shared, fetching config name)
  unfolding advance begin look_up
  advance_miss shared pvc config c missing = ground arith

  advance_hit :
      (shared : Shared) (pvc : Pvc Q) (config : PvcConfig F Q) (b : Bool)
      → IsOfClass pvc config
      → get shared.cache name ≡ some b
      → advance env volumes shared pvc starting ≡ some (shared, answered config b [])
  unfolding advance begin look_up
  advance_hit shared pvc config b c found = ground arith

  advance_fetch :
      (shared : Shared) (pvc : Pvc Q) (config : PvcConfig F Q)
      → env.get_storage_class name ≡ ok sc
      → advance env volumes shared pvc (fetching config name)
        ≡ some (
          record shared { cache = set shared.cache name (class_expandable sc) },
          storing config name sc,
        )
  unfolding advance fetch
  advance_fetch shared pvc config answer = ground arith

  advance_waiting :
      (shared : Shared) (pvc : Pvc Q) (k : ℕ)
      → shared.free ≡ suc k
      → advance env volumes shared pvc waiting ≡ some (record shared { free = k }, starting)
  unfolding advance
  advance_waiting shared pvc k e = ground arith

  -- For two PVCs of one class that the API server has, and two places in the semaphore: a cycle can
  -- reach a state in which the second PVC has been told whether its class can be expanded, and
  -- getFilesystemType still answers ext4 for it, whatever the file system of the class.
  pub get_filesystem_type_before_set_fs_type :
      (cache : StorageClassCache) (p q : Pvc Q) (c d : PvcConfig F Q) (k : ℕ)
      → IsOfClass p c
      → IsOfClass q d
      → env.get_storage_class name ≡ ok sc
      → (t : System F Q) × Steps env volumes (launch (clear cache) (suc (suc k)) (p ∷ q ∷ [])) 5 t
        × (t.workers
            ≡ record { pvc = p; phase = storing c name sc }
              ∷ record { pvc = q; phase = answered d (class_expandable sc) [] }
              ∷ [])
        × (get_filesystem_type t.shared.cache q.storage_class_name ≡ "ext4")
  unfolding is_down has_panic
  get_filesystem_type_before_set_fs_type cache p q c d k of_p of_q answer =
      let at_p : Phase F Q → Worker F Q = λ phase. record { pvc = p; phase = phase } in
      let at_q : Phase F Q → Worker F Q = λ phase. record { pvc = q; phase = phase } in
      let empty = clear cache in
      let filled = set empty name (class_expandable sc) in
      let missing : get empty name ≡ none = get-clear cache name in
      let found : get filled name ≡ some (class_expandable sc) =
        get-set_self empty name (class_expandable sc) in
      let s1 = later start (
        pick [] (at_q waiting ∷ []) (at_p waiting) refl refl
          (advance_waiting (record { cache = empty; free = suc (suc k) }) p (suc k) refl)) in
      let s2 = later s1 (
        pick [] (at_q waiting ∷ []) (at_p starting) refl refl
          (advance_miss (record { cache = empty; free = suc k }) p c of_p missing)) in
      let s3 = later s2 (
        pick (at_p (fetching c name) ∷ []) [] (at_q waiting) refl refl
          (advance_waiting (record { cache = empty; free = suc k }) q k refl)) in
      let s4 = later s3 (
        pick [] (at_q starting ∷ []) (at_p (fetching c name)) refl refl
          (advance_fetch (record { cache = empty; free = k }) p c answer)) in
      let s5 = later s4 (
        pick (at_p (storing c name sc) ∷ []) [] (at_q starting) refl refl (
          advance_hit (record { cache = filled; free = k }) q d (class_expandable sc) of_q
            found)) in
      let untyped =
        get_filesystem_type-unset empty name (class_expandable sc) (get_fs_type-clear cache name) in
      (_, s5, refl, rw of_q.named untyped)
