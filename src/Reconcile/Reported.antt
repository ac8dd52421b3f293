-- ===== src/Reconcile/Reported.antt =====
-- What the event of a successful expansion says of the new size.
use pvc_chonker.Prelude.{
  ok, [], ◌∷◌, ◌≡◌, none, some, arith, lookup-insert_self, Option-cases, inl, inr,
}
use pvc_chonker.Kube.{Pvc}
use pvc_chonker.Annotations.Types.{PvcConfig}
use pvc_chonker.StorageCache.{StorageClassCache}
use pvc_chonker.Annotations.Cooldown.{update_last_expansion}
use pvc_chonker.Kubelet.Cache.{MetricsCache}
use pvc_chonker.Reconcile.Types.{Env, storage, storage_of}
use pvc_chonker.Reconcile.Expand.{done, expand_pvc, resized}
use pvc_chonker.Reconcile.Pvc.{reconcile_pvc}
use pvc_chonker.Reconcile.Pvc.Effects.{reported, reported-reconcile_managed}
use pvc_chonker.Reconcile.Sent.{Sends, sent}
use pvc_chonker.Reconcile.Safety.{sent-reconcile_pvc_iff}
use pvc_chonker.Annotations.Policies.{resolve_pvc_config}
use pvc_chonker.Annotations.Size.{calculate_new_size}

module _ {F Q S : Type 0} (env : Env F Q S) where
  -- the copy that is sent asks for the new size
  pub storage_of-resized :
      (pvc copy : Pvc Q) (new_size : Q)
      → resized env pvc new_size ≡ some copy
      → storage_of env.lib copy.requests ≡ new_size
  unfolding resized update_last_expansion
  storage_of-resized pvc copy new_size e = elim (Option-cases pvc.requests) [
    | inl nil_map ↦ absurd (ground arith)
    | inr (requests, given) ↦ ground (arith, lookup-insert_self storage new_size requests)
  ]

  expand_pvc-done :
      (pvc copy : Pvc Q) (config : PvcConfig F Q)
      → Sends env pvc config copy
      → env.update copy ≡ none
      → (expand_pvc env pvc config).0 ≡ done
  unfolding expand_pvc
  expand_pvc-done pvc copy config s accepted = ground arith

  -- When reconcilePVC sends `copy` for a PVC with this configuration, and the API server accepts
  -- it, then `copy` asks for the size that CalculateNewSize gives, but the sizes that the events
  -- report are the capacity of the PVC and the size that it asked for before.
  pub reported-reconcile_pvc :
      (volumes : MetricsCache F) (cache : StorageClassCache) (pvc copy : Pvc Q)
      (config : PvcConfig F Q)
      → resolve_pvc_config env.lib env.list_policies pvc env.global ≡ ok config
      → sent (reconcile_pvc env volumes cache pvc).1 ≡ copy ∷ []
      → env.update copy ≡ none
      → (calculate_new_size env.lib (some config) (storage_of env.lib pvc.capacity)
          ≡ ok (storage_of env.lib copy.requests))
        × (reported (reconcile_pvc env volumes cache pvc).1
            ≡ (storage_of env.lib pvc.capacity, storage_of env.lib pvc.requests) ∷ [])
  unfolding reconcile_pvc
  reported-reconcile_pvc volumes cache pvc copy config resolved one accepted =
      let x = (sent-reconcile_pvc_iff env volumes cache pvc copy).1.0 one in
      let same : x.config ≡ config = cc x.resolved in
      (
        rw (← same)
            (rw (storage_of-resized pvc copy x.sends.new_size x.sends.copied) x.sends.sized),
        rw (x.resolved, reconcile_pvc)
            (reported-reconcile_managed env pvc x.config volumes cache x.eligible x.expandable x.due
              (expand_pvc-done pvc copy x.config x.sends accepted)),
      )
