-- ===== src/Reconcile/Pvc/CacheUse.antt =====
-- reconcilePVC changes the cache of storage classes at most as IsStorageClassExpandable does.
use pvc_chonker.Prelude.{
  Result-cases, Bool, true, false, List, ◌≡◌, refl, ◌⊎◌, inl, inr, Bool-cases,
}
use pvc_chonker.Kube.{Pvc}
use pvc_chonker.Annotations.Types.{PvcConfig}
use pvc_chonker.Annotations.Policies.{resolve_pvc_config}
use pvc_chonker.StorageCache.{StorageClassCache}
use pvc_chonker.Kubelet.Cache.{MetricsCache}
use pvc_chonker.Reconcile.Types.{Env, Effect}
use pvc_chonker.Reconcile.Class.{is_pvc_eligible, is_storage_class_expandable}
use pvc_chonker.Reconcile.Pvc.{class_checked, reconcile_managed, reconcile_pvc}

module _ {F Q S : Type 0} (env : Env F Q S) (volumes : MetricsCache F) (cache : StorageClassCache)
    (pvc : Pvc Q) where
  cache-class_checked :
      (config : PvcConfig F Q) (b : Bool) (c : StorageClassCache) (calls : List (Effect F Q))
      → (class_checked env volumes pvc config (b, c, calls)).0 ≡ c
  unfolding class_checked
  cache-class_checked config true c calls = refl
  cache-class_checked config false c calls = refl

  cache-reconcile_managed :
      (config : PvcConfig F Q)
      → ((reconcile_managed env volumes cache pvc config).0 ≡ cache)
        ⊎ ((reconcile_managed env volumes cache pvc config).0
            ≡ (is_storage_class_expandable env cache pvc.storage_class_name).1)
  unfolding reconcile_managed
  cache-reconcile_managed config = elim (Bool-cases (is_pvc_eligible pvc)) [
    | inl eligible ↦
        let answer = is_storage_class_expandable env cache pvc.storage_class_name in
        inr (rw eligible (cache-class_checked config answer.0 answer.1 answer.2))
    | inr excluded ↦ inl (rw excluded)
  ]

  pub cache-reconcile_pvc :
      ((reconcile_pvc env volumes cache pvc).0 ≡ cache)
      ⊎ ((reconcile_pvc env volumes cache pvc).0
          ≡ (is_storage_class_expandable env cache pvc.storage_class_name).1)
  unfolding reconcile_pvc
  cache-reconcile_pvc =
      elim (Result-cases (resolve_pvc_config env.lib env.list_policies pvc env.global)) [
        | inl (e, unmanaged) ↦ inl (rw (unmanaged, reconcile_pvc))
        | inr (config, resolved) ↦ rw (resolved, reconcile_pvc) (cache-reconcile_managed config)
      ]
