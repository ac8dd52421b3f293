-- ===== src/Reconcile/SwitchedOff.antt =====
-- What happens to a PVC whose annotation enabled says "false".
use pvc_chonker.Prelude.{[], ◌∷◌, ◌≡◌, true, refl}
use pvc_chonker.Kube.{Pvc}
use pvc_chonker.Annotations.Policies.{is_switched_off, switched_off_config}
use pvc_chonker.Annotations.Policies.Sources.{switched_off, resolve_pvc_config-eq-ok_iff}
use pvc_chonker.StorageCache.{StorageClassCache}
use pvc_chonker.Kubelet.Cache.{MetricsCache}
use pvc_chonker.Reconcile.Types.{Env}
use pvc_chonker.Reconcile.Class.{is_pvc_eligible}
use pvc_chonker.Reconcile.Pvc.{reconcile_pvc}
use pvc_chonker.Reconcile.Pvc.Stages.{IsDue, IsExpandable}
use pvc_chonker.Reconcile.Sent.{sent, Sends}
use pvc_chonker.Reconcile.Safety.{sent-reconcile_pvc_iff}

module _ {F Q S : Type 0} (env : Env F Q S) (volumes : MetricsCache F)
    (cache : StorageClassCache) where
  -- A PVC whose annotation enabled says "false", in any case, is sent an Update all the same, where
  -- it is eligible, its storage class allows it, and it is due, and expanded outside a dry run,
  -- with the global values.
  pub sent-reconcile_pvc_of_is_switched_off :
      (pvc copy : Pvc Q)
      → is_switched_off pvc.annotations ≡ true
      → is_pvc_eligible pvc ≡ true
      → IsExpandable env pvc (switched_off_config env.lib env.global) cache
      → IsDue env pvc (switched_off_config env.lib env.global) volumes
      → Sends env pvc (switched_off_config env.lib env.global) copy
      → sent (reconcile_pvc env volumes cache pvc).1 ≡ copy ∷ []
  sent-reconcile_pvc_of_is_switched_off pvc copy off eligible expandable due sends =
      (sent-reconcile_pvc_iff env volumes cache pvc copy).1.1 (record {
        config = switched_off_config env.lib env.global;
        resolved =
            (resolve_pvc_config-eq-ok_iff env.lib env.list_policies pvc env.global _).1
              (switched_off off refl);
        eligible = eligible;
        expandable = expandable;
        due = due;
        sends = sends;
      })
