-- ===== src/Reconcile/Start/DryRun.antt =====
-- In a dry run the program asks for no update, over all its cycles.
use pvc_chonker.Prelude.{
  Result-cases, Bool, true, false, if◌then◌else◌, List, [], ◌∷◌, ◌≡◌, refl, ◌∙◌, inl, inr,
}
use pvc_chonker.Kube.{Pvc}
use pvc_chonker.Libs.{Libs}
use pvc_chonker.StorageCache.{new_storage_class_cache}
use pvc_chonker.Kubelet.Cache.{MetricsCache}
use pvc_chonker.Reconcile.Sent.{sent}
use pvc_chonker.Reconcile.Safety.{dry_run_sends_nothing}
use pvc_chonker.Reconcile.Cycle.Order.{sent_in_turn}
use pvc_chonker.Reconcile.Start.{Reconciler, Round, env_of, start}
use pvc_chonker.Reconcile.Start.Rounds.{sent_in, halts_in, sent_in_all, sent-start}

module _ {F Q S : Type 0} (lib : Libs F Q S) (r : Reconciler F Q) where
  if_same : (b : Bool) (pvcs : List (Pvc Q)) → (if b then pvcs else pvcs) ≡ pvcs
  if_same true pvcs = refl
  if_same false pvcs = refl

  sent_in_turn_dry :
      (round : Round F Q S) (volumes : MetricsCache F) (pvcs : List (Pvc Q))
      → r.dry_run ≡ true
      → sent_in_turn (env_of lib r round) volumes pvcs ≡ []
  unfolding sent_in_turn
  sent_in_turn_dry round volumes [] dry = refl
  sent_in_turn_dry round volumes (pvc ∷ pvcs) dry =
      rw
        (
          dry_run_sends_nothing (env_of lib r round) volumes new_storage_class_cache pvc dry,
          sent_in_turn_dry round volumes pvcs dry,
        )
        (if_same _ [])

  sent_in_dry : (round : Round F Q S) → r.dry_run ≡ true → sent_in lib r round ≡ []
  sent_in_dry round dry = elim (Result-cases round.list_pvcs) [
    | inl (e, unlisted) ↦ rw unlisted refl
    | inr (pvcs, listed) ↦ elim (Result-cases round.volumes) [
      | inl (e, unmeasured) ↦ rw (listed, unmeasured) refl
      | inr (volumes, measured) ↦ rw (listed, measured) (sent_in_turn_dry round volumes _ dry)
    ]
  ]

  sent_in_all_dry : (rounds : List (Round F Q S)) → r.dry_run ≡ true → sent_in_all lib r rounds ≡ []
  sent_in_all_dry [] dry = refl
  sent_in_all_dry (round ∷ rounds) dry =
      rw (sent_in_dry round dry, sent_in_all_dry rounds dry) (if_same (halts_in lib r round) [])

  pub start_dry_run :
      (first : Round F Q S) (rounds : List (Round F Q S))
      → r.dry_run ≡ true
      → sent (start lib r first rounds) ≡ []
  start_dry_run first rounds dry =
      sent-start lib r first rounds ∙ either_way _ (sent_in_all_dry (first ∷ rounds) dry)
    where
      either_way : {pvcs : List (Pvc Q)} (b : Bool) → pvcs ≡ [] → (if b then [] else pvcs) ≡ []
      either_way true e = refl
      either_way false e = e
