-- ===== src/Reconcile/Pvc/Courses.antt =====
-- The courses that an expansion can take, with all effects of each in order.
use pvc_chonker.Prelude.{
  Result-cases, String, Bool, true, false, some, List, [], ◌∷◌, ◌≡◌, refl, Bool-cases, Option-cases,
  inl, inr, ◌||◌, ◌==◌, if◌then◌else◌,
}
use pvc_chonker.Prelude.Int.{pos, ltb_ℤ}
use pvc_chonker.Kube.{Pvc}
use pvc_chonker.Annotations.Types.{PvcConfig}
use pvc_chonker.Annotations.Size.{calculate_new_size, exceeds_max_size}
use pvc_chonker.Metrics.{
  inc, threshold_reached_total, success_resize_total, failed_resize_total, limit_reached_total,
  kubernetes_client_requests_total, kubernetes_client_fail_total, record_kubernetes_client_request,
}
use pvc_chonker.StorageCache.{StorageClassCache}
use pvc_chonker.Kubelet.Cache.{VolumeMetrics}
use pvc_chonker.Reconcile.Types.{
  Env, Effect, metric, send, event, panic, Message, failed_to_expand, size_failed, exceeds_max,
  update_failed, storage_of,
}
use pvc_chonker.Reconcile.Class.{get_filesystem_type}
use pvc_chonker.Reconcile.Expand.{expand_pvc, resized}
use pvc_chonker.Reconcile.Pvc.{expansion, expansion_event, report}

abbrev pub labels : {Q : Type 0} → Pvc Q → List String
labels pvc = pvc.name ∷ pvc.namespace ∷ []

module _ {F Q : Type 0} where
  abbrev OneEvent : List (Effect F Q) → Type 0
  OneEvent es = (t r : String) × (m : Message F Q) × (es ≡ event t r m ∷ [])

  if-OneEvent :
      (b : Bool) (es fs : List (Effect F Q))
      → OneEvent es
      → OneEvent fs
      → OneEvent (if b then es else fs)
  if-OneEvent true es fs h k = h
  if-OneEvent false es fs h k = k

module _ {F Q : Type 0} (pvc : Pvc Q) where
  abbrev reached : List (Effect F Q) → List (Effect F Q)
  reached es = metric (inc threshold_reached_total (labels pvc)) ∷ es

  abbrev success : String → String → Message F Q → List (Effect F Q)
  success type reason message =
      metric (inc success_resize_total (labels pvc)) ∷ event type reason message ∷ []

  abbrev failure : Message F Q → List (Effect F Q)
  failure message =
      metric (inc failed_resize_total (pvc.name ∷ pvc.namespace ∷ "expansion_failed" ∷ []))
      ∷ event "Warning" "ExpansionFailed" message
      ∷ []

  abbrev answer : String → List (Effect F Q) → List (Effect F Q)
  answer status es = metric (inc kubernetes_client_requests_total ("update_pvc" ∷ status ∷ [])) ∷ es

  -- The six courses: no new size, a new size above the limit, a dry run, a PVC without a map of
  -- requests, and an update that is accepted or refused.
  pub data Course (es : List (Effect F Q)) : Type 0 where
    not_sized : (m : Message F Q) → es ≡ reached (failure m) → Course es
    above_limit :
        (m : Message F Q)
        → es ≡ reached (metric (inc limit_reached_total (labels pvc)) ∷ failure m)
        → Course es
    dry : (t r : String) (m : Message F Q) → es ≡ reached (success t r m) → Course es
    no_requests : es ≡ reached (panic ∷ []) → Course es
    accepted :
        (copy : Pvc Q) (t r : String) (m : Message F Q)
        → es ≡ reached (send copy ∷ answer "success" (success t r m))
        → Course es
    refused :
        (copy : Pvc Q) (m : Message F Q)
        → es
          ≡ reached (
              send copy
              ∷ answer "failed"
                  (metric (inc kubernetes_client_fail_total ("update_pvc" ∷ [])) ∷ failure m))
        → Course es

module _ {F Q S : Type 0} (env : Env F Q S) (cache : StorageClassCache) (pvc : Pvc Q)
    (config : PvcConfig F Q) (vm : VolumeMetrics F) where
  expansion_event-OneEvent : OneEvent (expansion_event env cache pvc config vm)
  unfolding expansion_event
  expansion_event-OneEvent =
      if-OneEvent (ltb_ℤ (pos 0) vm.inodes_total) _ _
        (if-OneEvent (env.lib.le config.inodes_threshold vm.inodes_usage_percent) _ _
          (if-OneEvent (fs_type == "ext3" || fs_type == "ext4") _ _ (_, _, _, refl) (_, _, _, refl))
          (_, _, _, refl))
        (_, _, _, refl)
    where
      fs_type : String
      fs_type = get_filesystem_type cache pvc.storage_class_name

  of_event :
      OneEvent (expansion_event env cache pvc config vm)
      → Course pvc (expansion env cache pvc config vm)
  unfolding expansion report expand_pvc record_kubernetes_client_request
  of_event (t, r, m, one) =
      elim (Result-cases
        (calculate_new_size env.lib (some config) (storage_of env.lib pvc.capacity))) [
          | inl (e, wrong) ↦ not_sized (failed_to_expand (size_failed e)) (rw wrong refl)
          | inr (new_size, sized) ↦
              elim (Bool-cases (exceeds_max_size env.lib (some config) new_size)) [
                | inl over ↦
                    above_limit (failed_to_expand (exceeds_max new_size config.max_size))
                      (rw (sized, over) refl)
                | inr within ↦ elim (Bool-cases env.dry_run) [
                  | inl wet ↦ dry t r m (rw (sized, within, wet, one) refl)
                  | inr wet ↦ elim (Option-cases (resized env pvc new_size)) [
                    | inl nil_map ↦ no_requests (rw (sized, within, wet, nil_map) refl)
                    | inr (copy, copied) ↦ elim (Option-cases (env.update copy)) [
                      | inl fine ↦
                          accepted copy t r m (rw (sized, within, wet, copied, fine, one) refl)
                      | inr (e, no_update) ↦
                          refused copy (failed_to_expand (update_failed e))
                            (rw (sized, within, wet, copied, no_update) refl)
                    ]
                  ]
                ]
              ]
        ]

  pub expansion-Course : Course pvc (expansion env cache pvc config vm)
  expansion-Course = of_event expansion_event-OneEvent
