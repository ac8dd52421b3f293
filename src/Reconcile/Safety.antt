-- ===== src/Reconcile/Safety.antt =====
-- When reconcilePVC updates a PVC, and with what.
use pvc_chonker.Prelude.{Result-cases, true, [], ◌∷◌, ok, ◌≡◌, refl, inl, inr, ◌↔◌, ◌⊎◌, ◌∙◌}
use pvc_chonker.Kube.{Pvc}
use pvc_chonker.Annotations.Types.{PvcConfig}
use pvc_chonker.Annotations.Policies.{resolve_pvc_config}
use pvc_chonker.StorageCache.{StorageClassCache}
use pvc_chonker.Kubelet.Cache.{MetricsCache}
use pvc_chonker.Reconcile.Types.{Env}
use pvc_chonker.Reconcile.Class.{is_pvc_eligible}
use pvc_chonker.Reconcile.Pvc.{reconcile_pvc}
use pvc_chonker.Reconcile.Pvc.Stages
use pvc_chonker.Reconcile.Sent.{sent, Sends, sent-expand_pvc, sent-expand_pvc_of_Sends}

-- Everything that holds when reconcilePVC sends `copy`: the configuration that resolves, the tests
-- that the PVC passes, and the size that is asked for.
pub record IsExpansion {F Q S : Type 0} (env : Env F Q S) (volumes : MetricsCache F)
    (cache : StorageClassCache) (pvc copy : Pvc Q) : Type 0 where
  pub config : PvcConfig F Q
  pub resolved : resolve_pvc_config env.lib env.list_policies pvc env.global ≡ ok config
  pub eligible : is_pvc_eligible pvc ≡ true
  pub expandable : Stages.IsExpandable env pvc config cache
  pub due : Stages.IsDue env pvc config volumes
  pub sends : Sends env pvc config copy

module _ {F Q S : Type 0} (env : Env F Q S) (volumes : MetricsCache F) (cache : StorageClassCache)
    (pvc : Pvc Q) where
  sent-reconcile_pvc :
      (sent (reconcile_pvc env volumes cache pvc).1 ≡ [])
      ⊎ ((copy : Pvc Q) × IsExpansion env volumes cache pvc copy)
  unfolding reconcile_pvc
  sent-reconcile_pvc =
      elim (Result-cases (resolve_pvc_config env.lib env.list_policies pvc env.global)) [
        | inl (e, unmanaged) ↦ inl (rw (unmanaged, reconcile_pvc) (unfold sent in refl))
        | inr (config, resolved) ↦
            elim (Stages.sent-reconcile_managed env pvc config volumes cache) [
              | inl held ↦ inl (rw (resolved, reconcile_pvc) held)
              | inr (eligible, expandable, due) ↦ elim (sent-expand_pvc env pvc config) [
                | inl stopped ↦ inl (
                    rw (resolved, reconcile_pvc)
                      (Stages.sent-reconcile_managed_of_IsDue env pvc config volumes cache eligible
                          expandable due
                        ∙ stopped))
                | inr (copy, sends) ↦ inr (
                  copy,
                  record {
                    config = config;
                    resolved = resolved;
                    eligible = eligible;
                    expandable = expandable;
                    due = due;
                    sends = sends;
                  },
                )
              ]
            ]
      ]

  sent-reconcile_pvc_of_IsExpansion :
      (copy : Pvc Q)
      → IsExpansion env volumes cache pvc copy
      → sent (reconcile_pvc env volumes cache pvc).1 ≡ copy ∷ []
  unfolding reconcile_pvc
  sent-reconcile_pvc_of_IsExpansion copy x =
      rw (x.resolved, reconcile_pvc)
        (Stages.sent-reconcile_managed_of_IsDue env pvc x.config volumes cache x.eligible
            x.expandable x.due
          ∙ sent-expand_pvc_of_Sends env pvc x.config copy x.sends)

  -- reconcilePVC makes at most one Update call, and it sends `copy` exactly when a configuration
  -- resolves, the PVC is eligible, its storage class allows it, it is not resizing, not in its
  -- cooldown, its measured usage has reached a threshold, the new size is computed and within the
  -- limit, no dry run is on, and `copy` is the PVC with the new size and the stamp.
  pub sent-reconcile_pvc_iff :
      (copy : Pvc Q)
      → ((sent (reconcile_pvc env volumes cache pvc).1 ≡ [])
          ⊎ ((p : Pvc Q) × (sent (reconcile_pvc env volumes cache pvc).1 ≡ p ∷ [])))
        × ((sent (reconcile_pvc env volumes cache pvc).1 ≡ copy ∷ [])
            ↔ IsExpansion env volumes cache pvc copy)
  sent-reconcile_pvc_iff copy = (at_most_one sent-reconcile_pvc, (to sent-reconcile_pvc, from))
    where
      at_most_one :
          (sent (reconcile_pvc env volumes cache pvc).1 ≡ [])
            ⊎ ((p : Pvc Q) × IsExpansion env volumes cache pvc p)
          → (sent (reconcile_pvc env volumes cache pvc).1 ≡ [])
            ⊎ ((p : Pvc Q) × (sent (reconcile_pvc env volumes cache pvc).1 ≡ p ∷ []))
      at_most_one (inl none_sent) = inl none_sent
      at_most_one (inr (p, x)) = inr (p, sent-reconcile_pvc_of_IsExpansion p x)

      to :
          (sent (reconcile_pvc env volumes cache pvc).1 ≡ [])
            ⊎ ((p : Pvc Q) × IsExpansion env volumes cache pvc p)
          → sent (reconcile_pvc env volumes cache pvc).1 ≡ copy ∷ []
          → IsExpansion env volumes cache pvc copy
      to (inl none_sent) e = cc
      to (inr (p, x)) e =
          let same : p ≡ copy = cc (sent-reconcile_pvc_of_IsExpansion p x) in rw (← same) x

      from :
          IsExpansion env volumes cache pvc copy
          → sent (reconcile_pvc env volumes cache pvc).1 ≡ copy ∷ []
      from x = sent-reconcile_pvc_of_IsExpansion copy x

  -- In a dry run reconcilePVC makes no Update call.
  pub dry_run_sends_nothing : env.dry_run ≡ true → sent (reconcile_pvc env volumes cache pvc).1 ≡ []
  dry_run_sends_nothing dry = elim sent-reconcile_pvc [
    | inl none_sent ↦ none_sent
    | inr (copy, x) ↦ absurd (cc x.sends.wet)
  ]
