-- ===== src/Reconcile/Cycle/Order.antt =====
-- The order of the goroutines does not change what a cycle asks of the API server.
use pvc_chonker.Prelude.{
  Bool, false, ◌||◌, if◌then◌else◌, Dict, some, All, List, [], ◌∷◌, ◌++◌, ok, ◌≡◌, ◌⊎◌, refl, ◌∙◌,
  select, inl, inr, sym,
}
use pvc_chonker.Kube.{Pvc}
use pvc_chonker.StorageCache.{StorageClassCache, new_storage_class_cache, clear}
use pvc_chonker.Kubelet.Cache.{MetricsCache}
use pvc_chonker.Reconcile.Types.{Env, Effect, has_panic}
use pvc_chonker.Reconcile.Panics.{
  has_panic-metrics-append, has_panic-metrics, has_panic-and_then, sent-and_then,
  sent-and_then_silent, or_false,
}
use pvc_chonker.Reconcile.Pvc.Panics.{has_panic-reconcile_pvc, panics_of_requests}
use pvc_chonker.Reconcile.Class.Coherent.{
  IsCoherent, is_storage_class_expandable-IsCoherent, new_storage_class_cache-IsCoherent,
  clear-IsCoherent,
}
use pvc_chonker.Reconcile.Pvc.{reconcile_pvc}
use pvc_chonker.Reconcile.Pvc.CacheUse.{cache-reconcile_pvc}
use pvc_chonker.Reconcile.Sent.{sent, sent-metrics, sent-metrics-append}
use pvc_chonker.Reconcile.Safety.{IsExpansion, sent-reconcile_pvc_iff}
use pvc_chonker.Reconcile.Cycle.{is_managed, reconcile_each, reconcile_all}

-- The API server accepts only PVCs that request storage, so their map of requests is not nil.
abbrev pub HasRequests : {Q : Type 0} → Pvc Q → Type 0
HasRequests {Q} pvc = (requests : Dict Q) × (pvc.requests ≡ some requests)

module _ {F Q S : Type 0} (env : Env F Q S) (volumes : MetricsCache F) where
  -- What is sent does not depend on the cache, only on what it stands for.
  IsExpansion-cache :
      (c d : StorageClassCache) (pvc copy : Pvc Q)
      → IsCoherent env c
      → IsCoherent env d
      → IsExpansion env volumes c pvc copy
      → IsExpansion env volumes d pvc copy
  IsExpansion-cache c d pvc copy hc hd x = record {
    config = x.config;
    resolved = x.resolved;
    eligible = x.eligible;
    expandable =
        (is_storage_class_expandable-IsCoherent env d pvc.storage_class_name hd).1
        ∙ sym (is_storage_class_expandable-IsCoherent env c pvc.storage_class_name hc).1
        ∙ x.expandable;
    due = x.due;
    sends = x.sends;
  }

  sent-reconcile_pvc_cache :
      (c d : StorageClassCache) (pvc : Pvc Q)
      → IsCoherent env c
      → IsCoherent env d
      → sent (reconcile_pvc env volumes c pvc).1 ≡ sent (reconcile_pvc env volumes d pvc).1
  sent-reconcile_pvc_cache c d pvc hc hd =
      by_cases (sent-reconcile_pvc_iff env volumes c pvc pvc).0
        (sent-reconcile_pvc_iff env volumes d pvc pvc).0
    where
      by_cases :
          (sent (reconcile_pvc env volumes c pvc).1 ≡ [])
            ⊎ ((p : Pvc Q) × (sent (reconcile_pvc env volumes c pvc).1 ≡ p ∷ []))
          → (sent (reconcile_pvc env volumes d pvc).1 ≡ [])
            ⊎ ((p : Pvc Q) × (sent (reconcile_pvc env volumes d pvc).1 ≡ p ∷ []))
          → sent (reconcile_pvc env volumes c pvc).1 ≡ sent (reconcile_pvc env volumes d pvc).1
      by_cases (inr (p, one)) r =
          let x = (sent-reconcile_pvc_iff env volumes c pvc p).1.0 one in
          one
          ∙ sym (
              (sent-reconcile_pvc_iff env volumes d pvc p).1.1
                (IsExpansion-cache c d pvc p hc hd x))
      by_cases (inl nothing) (inl neither) = nothing ∙ sym neither
      by_cases (inl nothing) (inr (p, one)) =
          let x = (sent-reconcile_pvc_iff env volumes d pvc p).1.0 one in
          (sent-reconcile_pvc_iff env volumes c pvc p).1.1 (IsExpansion-cache d c pvc p hd hc x)
          ∙ sym one

  reconcile_pvc-IsCoherent :
      (c : StorageClassCache) (pvc : Pvc Q)
      → IsCoherent env c
      → IsCoherent env (reconcile_pvc env volumes c pvc).0
  reconcile_pvc-IsCoherent c pvc h = elim (cache-reconcile_pvc env volumes c pvc) [
    | inl same ↦ rw same h
    | inr asked ↦ rw asked (is_storage_class_expandable-IsCoherent env c pvc.storage_class_name h).0
  ]

  -- what each PVC alone, with nothing cached, would send
  unfoldable pub sent_alone : List (Pvc Q) → List (Pvc Q)
  sent_alone [] = []
  sent_alone (pvc ∷ pvcs) =
      sent (reconcile_pvc env volumes new_storage_class_cache pvc).1 ++ sent_alone pvcs

  -- what the PVC alone does, with nothing cached
  abbrev effects_alone : Pvc Q → List (Effect F Q)
  effects_alone pvc = (reconcile_pvc env volumes new_storage_class_cache pvc).1

  -- what each PVC alone would send, one PVC after the other until one of them panics
  unfoldable pub sent_in_turn : List (Pvc Q) → List (Pvc Q)
  sent_in_turn [] = []
  sent_in_turn (pvc ∷ pvcs) =
      let rest = sent_in_turn pvcs in
      if has_panic (effects_alone pvc)
      then sent (effects_alone pvc)
      else sent (effects_alone pvc) ++ rest

  -- one of the PVCs panics
  unfoldable pub halts : List (Pvc Q) → Bool
  halts [] = false
  halts (pvc ∷ pvcs) = has_panic (effects_alone pvc) || halts pvcs

  has_panic-cache :
      (c : StorageClassCache) (pvc : Pvc Q)
      → IsCoherent env c
      → has_panic (reconcile_pvc env volumes c pvc).1 ≡ has_panic (effects_alone pvc)
  has_panic-cache c pvc h =
      has_panic-reconcile_pvc env volumes pvc c h
      ∙ sym (
          has_panic-reconcile_pvc env volumes pvc new_storage_class_cache
            (new_storage_class_cache-IsCoherent env))

  pub halts-reconcile_each :
      (c : StorageClassCache) (pvcs : List (Pvc Q))
      → IsCoherent env c
      → has_panic (reconcile_each env volumes c pvcs).1 ≡ halts pvcs
  unfolding reconcile_each halts
  halts-reconcile_each c [] h = unfold has_panic in refl
  halts-reconcile_each c (pvc ∷ pvcs) h =
      rw
        (
          has_panic-and_then,
          has_panic-cache c pvc h,
          halts-reconcile_each (reconcile_pvc env volumes c pvc).0 pvcs
              (reconcile_pvc-IsCoherent c pvc h),
        )
        refl

  sent-reconcile_each :
      (c : StorageClassCache) (pvcs : List (Pvc Q))
      → IsCoherent env c
      → sent (reconcile_each env volumes c pvcs).1 ≡ sent_in_turn pvcs
  unfolding reconcile_each sent_in_turn
  sent-reconcile_each c [] h = unfold sent in refl
  sent-reconcile_each c (pvc ∷ pvcs) h =
      rw
        (
          sent-and_then,
          has_panic-cache c pvc h,
          sent-reconcile_pvc_cache c new_storage_class_cache pvc h
              (new_storage_class_cache-IsCoherent env),
          sent-reconcile_each (reconcile_pvc env volumes c pvc).0 pvcs
              (reconcile_pvc-IsCoherent c pvc h),
        )
        refl

  -- A PVC with a map of requests does not panic.
  has_panic_of_requests : (pvc : Pvc Q) → HasRequests pvc → has_panic (effects_alone pvc) ≡ false
  has_panic_of_requests pvc (requests, e) =
      has_panic-reconcile_pvc env volumes pvc new_storage_class_cache
        (new_storage_class_cache-IsCoherent env)
      ∙ panics_of_requests env volumes pvc requests e

  pub halts_of_HasRequests : (pvcs : List (Pvc Q)) → All HasRequests pvcs → halts pvcs ≡ false
  unfolding halts
  halts_of_HasRequests [] h = refl
  halts_of_HasRequests (pvc ∷ pvcs) (r, h) =
      rw (has_panic_of_requests pvc r, halts_of_HasRequests pvcs h) refl

  -- Where every PVC has a map of requests, each has its turn.
  pub sent_in_turn-sent_alone :
      (pvcs : List (Pvc Q)) → All HasRequests pvcs → sent_in_turn pvcs ≡ sent_alone pvcs
  unfolding sent_in_turn sent_alone
  sent_in_turn-sent_alone [] h = refl
  sent_in_turn-sent_alone (pvc ∷ pvcs) (r, h) =
      rw (has_panic_of_requests pvc r, sent_in_turn-sent_alone pvcs h) refl

module _ {F Q S : Type 0} (env : Env F Q S) (volumes : MetricsCache F)
    (schedule : List (Pvc Q) → List (Pvc Q)) (response seconds finished : F) where
  -- A cycle sends what the managed PVCs would send each alone with an empty cache, in the order of
  -- the schedule until one of them panics: nothing else of the PVCs that come before changes what
  -- is sent for a PVC, and nor does the cache.
  pub sent-reconcile_all :
      (E : Type 0) (cache : StorageClassCache) (pvcs : List (Pvc Q))
      → sent
          (reconcile_all env schedule response seconds finished {E = E}
            (ok pvcs)
            (ok volumes)
            cache).1
        ≡ sent_in_turn env volumes (schedule (select (is_managed env) pvcs))
  unfolding reconcile_all
  sent-reconcile_all E cache pvcs =
      simp (sent-metrics-append, sent-and_then_silent, sent-metrics)
        (sent-reconcile_each env volumes (clear cache) _ (clear-IsCoherent env cache))

  -- A cycle ends in a panic if one of its managed PVCs does.
  pub halts-reconcile_all :
      (E : Type 0) (cache : StorageClassCache) (pvcs : List (Pvc Q))
      → has_panic
          (reconcile_all env schedule response seconds finished {E = E}
            (ok pvcs)
            (ok volumes)
            cache).1
        ≡ halts env volumes (schedule (select (is_managed env) pvcs))
  unfolding reconcile_all
  halts-reconcile_all E cache pvcs =
      simp (has_panic-metrics-append, has_panic-and_then, has_panic-metrics, or_false)
        (halts-reconcile_each env volumes (clear cache) _ (clear-IsCoherent env cache))
