-- ===== src/Reconcile/Parallel/Sends.antt =====
-- What the last step of a goroutine sends does not depend on what the cache held at any time.
use pvc_chonker.Prelude.{
  Bool, true, false, List, [], ok, err, ◌≡◌, ◌∙◌, sym, refl, inl, inr, if◌then◌else◌,
}
use pvc_chonker.Kube.{Pvc}
use pvc_chonker.Annotations.Types.{PvcConfig}
use pvc_chonker.Annotations.Policies.{resolve_pvc_config}
use pvc_chonker.StorageCache.{StorageClassCache, new_storage_class_cache}
use pvc_chonker.Kubelet.Cache.{MetricsCache}
use pvc_chonker.Reconcile.Types.{Env, Effect, has_panic}
use pvc_chonker.Reconcile.Pvc.Panics.{panics, has_panic-class_checked}
use pvc_chonker.Reconcile.Class.{is_pvc_eligible, is_storage_class_expandable}
use pvc_chonker.Reconcile.Class.Coherent.{
  direct, is_storage_class_expandable-IsCoherent, new_storage_class_cache-IsCoherent,
}
use pvc_chonker.Reconcile.Sent.{sent}
use pvc_chonker.Reconcile.Pvc.{unguarded, class_checked, reconcile_managed, reconcile_pvc}
use pvc_chonker.Reconcile.Pvc.Stages.{
  sent-unguarded, sent-unguarded_of_IsDue, sent-class_checked, sent-class_checked_here,
}

module _ {F Q S : Type 0} (env : Env F Q S) (volumes : MetricsCache F) (pvc : Pvc Q) where
  -- what the PVC alone, with nothing cached, would send
  abbrev pub alone : List (Pvc Q)
  alone = sent (reconcile_pvc env volumes new_storage_class_cache pvc).1

  module _ (config : PvcConfig F Q) where
    sent-unguarded_cache :
        (c d : StorageClassCache)
        → sent (unguarded env volumes c pvc config) ≡ sent (unguarded env volumes d pvc config)
    sent-unguarded_cache c d = elim (sent-unguarded env pvc config volumes c) [
      | inr due ↦
          sent-unguarded_of_IsDue env pvc config volumes c due
          ∙ sym (sent-unguarded_of_IsDue env pvc config volumes d due)
      | inl nothing ↦ elim (sent-unguarded env pvc config volumes d) [
        | inl neither ↦ nothing ∙ sym neither
        | inr due ↦
            sent-unguarded_of_IsDue env pvc config volumes c due
            ∙ sym (sent-unguarded_of_IsDue env pvc config volumes d due)
      ]
    ]

    sent-if :
        (b e : Bool) (c d : StorageClassCache)
        → b ≡ e
        → (if b then sent (unguarded env volumes c pvc config) else [])
          ≡ (if e then sent (unguarded env volumes d pvc config) else [])
    sent-if true e c d same = rw (← same) (sent-unguarded_cache c d)
    sent-if false e c d same = rw (← same) refl

    pub sent-class_checked-alone :
        (b : Bool) (cache : StorageClassCache) (calls : List (Effect F Q))
        → resolve_pvc_config env.lib env.list_policies pvc env.global ≡ ok config
        → is_pvc_eligible pvc ≡ true
        → b ≡ direct env pvc.storage_class_name
        → sent calls ≡ []
        → sent (class_checked env volumes pvc config (b, cache, calls)).1 ≡ alone
    unfolding reconcile_pvc reconcile_managed
    sent-class_checked-alone b cache calls resolved eligible answer silent =
        let name = pvc.storage_class_name in
        let fresh = is_storage_class_expandable env new_storage_class_cache name in
        let same : b ≡ fresh.0 =
          answer
          ∙ sym
              (is_storage_class_expandable-IsCoherent env new_storage_class_cache name
                (new_storage_class_cache-IsCoherent env)).1 in
        sent-class_checked env pvc config volumes b cache calls silent
        ∙ sent-if b fresh.0 cache fresh.1 same
        ∙ sym (sent-class_checked_here env pvc config volumes new_storage_class_cache)
        ∙ rw (resolved, reconcile_pvc, eligible) refl

    pub panics-class_checked-alone :
        (b : Bool) (cache : StorageClassCache) (calls : List (Effect F Q))
        → resolve_pvc_config env.lib env.list_policies pvc env.global ≡ ok config
        → is_pvc_eligible pvc ≡ true
        → b ≡ direct env pvc.storage_class_name
        → has_panic calls ≡ false
        → has_panic (class_checked env volumes pvc config (b, cache, calls)).1
          ≡ panics env volumes pvc
    panics-class_checked-alone b cache calls resolved eligible answer silent =
        has_panic-class_checked env pvc config volumes b cache calls silent
        ∙ rw (answer, panics, resolved, eligible) refl

  pub unresolved-panics :
      (e : _)
      → resolve_pvc_config env.lib env.list_policies pvc env.global ≡ err e
      → panics env volumes pvc ≡ false
  unresolved-panics e failed = rw (panics, failed) refl

  pub ineligible-panics :
      (config : PvcConfig F Q)
      → resolve_pvc_config env.lib env.list_policies pvc env.global ≡ ok config
      → is_pvc_eligible pvc ≡ false
      → panics env volumes pvc ≡ false
  ineligible-panics config resolved excluded = rw (panics, resolved, excluded) refl

  pub unresolved-alone :
      (e : _) → resolve_pvc_config env.lib env.list_policies pvc env.global ≡ err e → alone ≡ []
  unfolding reconcile_pvc sent
  unresolved-alone e failed = rw (failed, reconcile_pvc) refl

  pub ineligible-alone :
      (config : PvcConfig F Q)
      → resolve_pvc_config env.lib env.list_policies pvc env.global ≡ ok config
      → is_pvc_eligible pvc ≡ false
      → alone ≡ []
  unfolding reconcile_pvc reconcile_managed sent
  ineligible-alone config resolved excluded = rw (resolved, reconcile_pvc, excluded) refl
