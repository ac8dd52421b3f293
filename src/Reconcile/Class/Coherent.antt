-- ===== src/Reconcile/Class/Coherent.antt =====
-- The cache of storage classes never changes an answer: it holds what the API server would say.
use pvc_chonker.Prelude.{
  String, Bool, false, Option, none, some, [], Result, ok, err, ◌≡◌, ◌==◌, eq_iff, eq_refl, refl,
  arith, if◌then◌else◌, Option-cases, Bool-cases, inl, inr, lookup, lookup-insert,
}
use pvc_chonker.Kube.{StorageClass, ApiError}
use pvc_chonker.StorageCache.{
  StorageClassCache, new_storage_class_cache, get, set, get_fs_type, set_fs_type, clear,
}
use pvc_chonker.Reconcile.Types.{Env}
use pvc_chonker.Reconcile.Class.{
  class_expandable, class_fs_type, remember, fetched, is_storage_class_expandable,
  get_filesystem_type,
}

module _ {F Q S : Type 0} (env : Env F Q S) where
  -- Whatever the cache holds for a class is what the API server answers for it.
  pub record IsCoherent (cache : StorageClassCache) : Type 0 where
    pub agrees :
        (name : String) (expandable : Bool)
        → get cache name ≡ some expandable
        → (sc : StorageClass) × (env.get_storage_class name ≡ ok sc)
          × (class_expandable sc ≡ expandable)
          × (get_fs_type cache name ≡ some (class_fs_type sc))

  pub new_storage_class_cache-IsCoherent : IsCoherent new_storage_class_cache
  unfolding new_storage_class_cache get lookup
  new_storage_class_cache-IsCoherent = record { agrees = λ name expandable e. cc }

  pub clear-IsCoherent : (cache : StorageClassCache) → IsCoherent (clear cache)
  unfolding clear get lookup
  clear-IsCoherent cache = record { agrees = λ name expandable e. cc }

  get-remember :
      (name j : String) (sc : StorageClass) (cache : StorageClassCache)
      → get (remember name sc cache) j
        ≡ (if name == j then some (class_expandable sc) else get cache j)
  unfolding get remember set set_fs_type
  get-remember name j sc cache = lookup-insert name j (class_expandable sc) cache.cache

  get_fs_type-remember :
      (name j : String) (sc : StorageClass) (cache : StorageClassCache)
      → get_fs_type (remember name sc cache) j
        ≡ (if name == j then some (class_fs_type sc) else get_fs_type cache j)
  unfolding get_fs_type remember set set_fs_type
  get_fs_type-remember name j sc cache = lookup-insert name j (class_fs_type sc) cache.fs_types

  remember-IsCoherent :
      (name : String) (sc : StorageClass) (cache : StorageClassCache)
      → env.get_storage_class name ≡ ok sc
      → IsCoherent cache
      → IsCoherent (remember name sc cache)
  remember-IsCoherent name sc cache answer h = record {
    agrees = λ j expandable e. elim (Bool-cases (name == j)) [
      | inl same ↦ (
        sc,
        rw (← (eq_iff name j).0 same) answer,
        ground (arith, get-remember name j sc cache),
        ground (arith, get_fs_type-remember name j sc cache),
      )
      | inr other ↦
          let kept : get cache j ≡ some expandable = ground (arith, get-remember name j sc cache) in
          let (known, answered, allowed, typed) = h.agrees j expandable kept in
          (known, answered, allowed, ground (arith, get_fs_type-remember name j sc cache))
    ];
  }

  -- The answer without a cache.
  abbrev pub direct : Option String → Bool
  direct none = false
  direct (some name) = elim (env.get_storage_class name) [
    | ok sc ↦ class_expandable sc
    | err e ↦ false
  ]

  fetched_lem :
      (name : String) (cache : StorageClassCache) (r : Result ApiError StorageClass)
      → env.get_storage_class name ≡ r
      → IsCoherent cache
      → IsCoherent (fetched {F = F} {Q = Q} name r cache).1
        × ((fetched {F = F} {Q = Q} name r cache).0 ≡ direct (some name))
  unfolding fetched
  fetched_lem name cache (ok sc) e h = (remember-IsCoherent name sc cache e h, rw (e, direct))
  fetched_lem name cache (err x) e h = (h, rw (e, direct))

  known_class :
      (cache : StorageClassCache) (name : String) (expandable : Bool)
      → get cache name ≡ some expandable
      → is_storage_class_expandable env cache (some name) ≡ (expandable, cache, [])
  unfolding is_storage_class_expandable
  known_class cache name expandable e = ground arith

  unknown_class :
      (cache : StorageClassCache) (name : String)
      → get cache name ≡ none
      → is_storage_class_expandable env cache (some name)
        ≡ fetched name (env.get_storage_class name) cache
  unfolding is_storage_class_expandable
  unknown_class cache name e = ground arith

  -- With a coherent cache IsStorageClassExpandable answers as the API server would, and leaves the
  -- cache coherent.
  pub is_storage_class_expandable-IsCoherent :
      (cache : StorageClassCache) (name : Option String)
      → IsCoherent cache
      → IsCoherent (is_storage_class_expandable env cache name).1
        × ((is_storage_class_expandable env cache name).0 ≡ direct name)
  unfolding is_storage_class_expandable
  is_storage_class_expandable-IsCoherent cache none h = (h, refl)
  is_storage_class_expandable-IsCoherent cache (some name) h =
      elim (Option-cases (get cache name)) [
        | inl unknown ↦
            rw (unknown_class cache name unknown)
              (fetched_lem name cache (env.get_storage_class name) refl h)
        | inr (expandable, known) ↦
            let (sc, answered, allowed, typed) = h.agrees name expandable known in
            rw (known_class cache name expandable known) (h, ground arith)
      ]

  fetched_fs_type :
      (name : String) (cache : StorageClassCache) (sc : StorageClass)
      → get_filesystem_type (fetched {F = F} {Q = Q} name (ok sc) cache).1 (some name)
        ≡ class_fs_type sc
  unfolding fetched get_filesystem_type
  fetched_fs_type name cache sc =
      ground (arith, get_fs_type-remember name name sc cache, eq_refl name)

  -- With a coherent cache, once IsStorageClassExpandable has looked at a class that the API server
  -- has, getFilesystemType answers the file system that the parameters of the class name.
  pub get_filesystem_type_of_IsCoherent :
      (cache : StorageClassCache) (name : String) (sc : StorageClass)
      → IsCoherent cache
      → env.get_storage_class name ≡ ok sc
      → get_filesystem_type (is_storage_class_expandable env cache (some name)).1 (some name)
        ≡ class_fs_type sc
  unfolding is_storage_class_expandable
  get_filesystem_type_of_IsCoherent cache name sc h answer = elim (Option-cases (get cache name)) [
    | inl unknown ↦ rw (unknown_class cache name unknown, answer) (fetched_fs_type name cache sc)
    | inr (expandable, known) ↦
        let (sc', answered, allowed, typed) = h.agrees name expandable known in
        let same : sc' ≡ sc = cc in
        rw (known_class cache name expandable known)
          (unfold get_filesystem_type in rw (typed, same))
  ]
