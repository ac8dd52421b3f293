-- ===== src/Reconcile/Class.antt =====
-- IsPVCEligible, IsStorageClassExpandable and getFilesystemType: the tests on a PVC and its storage
-- class, with the cache of storage classes.
pub mod Coherent
use pvc_chonker.Prelude.{
  String, Bool, true, false, not, ◌&&◌, ◌||◌, Option, none, some, List, [], ◌∷◌, Result, ok, err,
  ◌==◌, if◌then◌else◌, lookup_nil, get_or, Dict,
}
use pvc_chonker.Kube.{Pvc, StorageClass, ApiError}
use pvc_chonker.Metrics.{record_kubernetes_client_request}
use pvc_chonker.StorageCache.{StorageClassCache, get, set, get_fs_type, set_fs_type}
use pvc_chonker.Reconcile.Types.{Env, Effect, metrics}

unfoldable pub is_pvc_eligible : {Q : Type 0} → Pvc Q → Bool
is_pvc_eligible pvc =
    if not (get_or pvc.volume_mode "Filesystem" == "Filesystem")
    then false
    else if not (pvc.phase == "Bound")
    then false
    else true

-- sc.AllowVolumeExpansion != nil && *sc.AllowVolumeExpansion
unfoldable pub class_expandable : StorageClass → Bool
class_expandable sc = get_or sc.allow_volume_expansion false

-- the file system that the parameters name, or ext4
unfoldable pub class_fs_type : StorageClass → String
class_fs_type sc = elim (lookup_nil "fsType" sc.parameters) [
  | some fs_type ↦ fs_type
  | none ↦ get_or (lookup_nil "csi.storage.k8s.io/fstype" sc.parameters) "ext4"
]

-- storageCache.Set and SetFsType for a class that was read
unfoldable pub remember : String → StorageClass → StorageClassCache → StorageClassCache
unfolding class_expandable class_fs_type
remember sc_name sc cache =
    set_fs_type (set cache sc_name (class_expandable sc)) sc_name (class_fs_type sc)

-- the call r.Get for the class, and what it leads to
fetched :
    {F Q : Type 0}
    → String
    → Result ApiError StorageClass
    → StorageClassCache
    → Bool × StorageClassCache × List (Effect F Q)
fetched sc_name (err e) cache =
    (false, cache, metrics (record_kubernetes_client_request "get_storageclass" "failed"))
fetched sc_name (ok sc) cache = (
  class_expandable sc,
  remember sc_name sc cache,
  metrics (record_kubernetes_client_request "get_storageclass" "success"),
)

module _ {F Q S : Type 0} where
  unfoldable pub is_storage_class_expandable :
      Env F Q S → StorageClassCache → Option String → Bool × StorageClassCache × List (Effect F Q)
  unfolding fetched remember
  is_storage_class_expandable env cache none = (false, cache, [])
  is_storage_class_expandable env cache (some sc_name) = elim (get cache sc_name) [
    | some expandable ↦ (expandable, cache, [])
    | none ↦ fetched sc_name (env.get_storage_class sc_name) cache
  ]

unfoldable pub get_filesystem_type : StorageClassCache → Option String → String
get_filesystem_type cache none = "unknown"
get_filesystem_type cache (some sc_name) = get_or (get_fs_type cache sc_name) "ext4"
