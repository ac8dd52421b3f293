-- ===== src/Reconcile/Rested.antt =====
-- The cooldown across the cycles: what the stamp of one expansion holds back later.
use pvc_chonker.Prelude.{
  String, true, false, some, [], ◌∷◌, ◌-◌, ◌^◌, ◌≡◌, refl, ◌∙◌, inl, inr, arith, ok, insert, Dict,
  lookup-insert, lookup-insert_self, eq_iff, Option-cases,
}
use pvc_chonker.Prelude.Int.{ℤ, pos, negsuc, ◌≤ℤ◌, ◌<ℤ◌, ◌+ℤ◌}
use pvc_chonker.Prelude.Text.{to_lower}
use pvc_chonker.Kube.{Pvc}
use pvc_chonker.Libs.{Libs}
use pvc_chonker.Annotations.Types.{
  GlobalConfig, PvcConfig, annotation_enabled, annotation_threshold, annotation_inodes_threshold,
  annotation_increase, annotation_max_size, annotation_cooldown, annotation_min_scale_up,
  annotation_last_expansion,
}
use pvc_chonker.Annotations.Parse.{parse_pvc_annotations, IsParsed}
use pvc_chonker.Annotations.Parse.Meaning.{parse_pvc_annotations-eq-ok_iff}
use pvc_chonker.Annotations.Cooldown.{update_last_expansion, or_empty, is_in_cooldown}
use pvc_chonker.Annotations.Cooldown.Window.{is_in_cooldown_iff}
use pvc_chonker.Annotations.Policies.{resolve_pvc_config, is_switched_off}
use pvc_chonker.Annotations.Policies.Sources.{own_annotations, resolve_pvc_config-eq-ok_iff}
use pvc_chonker.StorageCache.{StorageClassCache}
use pvc_chonker.Kubelet.Cache.{MetricsCache}
use pvc_chonker.Reconcile.Types.{Env}
use pvc_chonker.Reconcile.Expand.{resized}
use pvc_chonker.Reconcile.Pvc.{reconcile_pvc}
use pvc_chonker.Reconcile.Sent.{sent}
use pvc_chonker.Reconcile.Safety.{IsExpansion, sent-reconcile_pvc_iff}
use pvc_chonker.Reconcile.Start.{Reconciler, Round, env_of}

module _ {F Q S : Type 0} (lib : Libs F Q S) (global : GlobalConfig F Q) where
  -- Annotations that are parsed to `c` are parsed, after a stamp at a time that reads as `t`, to
  -- `c` with `t` as its last expansion.
  IsParsed-insert :
      (a : Dict String) (c : PvcConfig F Q) (v : String) (t : ℤ)
      → lib.parse_time v ≡ some t
      → IsParsed lib a global c
      → IsParsed lib
          (insert annotation_last_expansion v a)
          global
          (record c { last_expansion = some t })
  IsParsed-insert a c v t read i =
      let kept = λ (key : String). lookup-insert annotation_last_expansion key v a in
      record {
        switch = i.switch;
        switched = rw (kept annotation_enabled) i.switched;
        on = i.on;
        enabled = i.enabled;
        threshold = rw (kept annotation_threshold) i.threshold;
        inodes_threshold = rw (kept annotation_inodes_threshold) i.inodes_threshold;
        increase = rw (kept annotation_increase) i.increase;
        max_size = rw (kept annotation_max_size) i.max_size;
        cooldown = rw (kept annotation_cooldown) i.cooldown;
        min_scale_up = rw (kept annotation_min_scale_up) i.min_scale_up;
        last_expansion = rw (lookup-insert_self annotation_last_expansion v a) (t, read, refl);
      }

  -- Annotations that parse do not switch the PVC off.
  IsParsed-is_switched_off :
      (a : Dict String) (c : PvcConfig F Q)
      → IsParsed lib a global c
      → is_switched_off (some a) ≡ false
  unfolding is_switched_off
  IsParsed-is_switched_off a c i =
      rw (is_switched_off, i.switched)
        (let reads : to_lower i.switch ≡ "true" = (eq_iff (to_lower i.switch) "true").0 i.on in
          rw reads refl)

  resized-annotations :
      (env : Env F Q S) (pvc copy : Pvc Q) (new_size : Q)
      → resized env pvc new_size ≡ some copy
      → copy.annotations
        ≡ some (
            insert annotation_last_expansion
              (env.lib.format_time env.stamp)
              (or_empty pvc.annotations))
  unfolding resized update_last_expansion
  resized-annotations env pvc copy new_size e = elim (Option-cases pvc.requests) [
    | inl nil_map ↦ absurd (ground arith)
    | inr (requests, there) ↦ ground arith
  ]

  -- Where a PVC's annotations parse to `c`, its configuration is `c` and no other.
  resolve_pvc_config-IsParsed :
      (env : Env F Q S) (pvc : Pvc Q) (a : Dict String) (c c' : PvcConfig F Q)
      → pvc.annotations ≡ some a
      → IsParsed lib a global c
      → resolve_pvc_config lib env.list_policies pvc global ≡ ok c'
      → c' ≡ c
  resolve_pvc_config-IsParsed env pvc a c c' there i e =
      let on : is_switched_off pvc.annotations ≡ false =
        rw there (IsParsed-is_switched_off a c i) in
      let parsed : parse_pvc_annotations lib (some pvc) (some global) ≡ ok c =
        (parse_pvc_annotations-eq-ok_iff lib pvc global c).1 (a, there, i) in
      let own : resolve_pvc_config lib env.list_policies pvc global ≡ ok c =
        (resolve_pvc_config-eq-ok_iff lib env.list_policies pvc global c).1
          (own_annotations on parsed) in
      cc

module _ {F Q S : Type 0} (lib : Libs F Q S) (r : Reconciler F Q) where
  -- A PVC with the annotations of the copy that a round sent is in its cooldown in every round
  -- whose clock is before the stamp plus the cooldown.
  copied-is_in_cooldown :
      (first second : Round F Q S) (pvc copy later : Pvc Q) (c c' : PvcConfig F Q) (t : ℤ)
      (new_size : Q)
      → parse_pvc_annotations lib (some pvc) (some r.global_config) ≡ ok c
      → resized (env_of lib r first) pvc new_size ≡ some copy
      → lib.parse_time (lib.format_time first.stamp) ≡ some t
      → negsuc (2 ^ 63 - 1) <ℤ c.cooldown
      → c.cooldown ≤ℤ pos (2 ^ 63 - 1)
      → later.annotations ≡ copy.annotations
      → resolve_pvc_config lib second.list_policies later r.global_config ≡ ok c'
      → second.now <ℤ t +ℤ c.cooldown
      → is_in_cooldown (some c') second.now ≡ true
  copied-is_in_cooldown first second pvc copy later c c' t new_size parsed sized read low high same
        e soon =
      let (a, there, i) = (parse_pvc_annotations-eq-ok_iff lib pvc r.global_config c).0 parsed in
      let stamped =
        resized-annotations lib r.global_config (env_of lib r first) pvc copy new_size sized in
      let stamp = lib.format_time first.stamp in
      let kept : later.annotations ≡ some (insert annotation_last_expansion stamp a) =
        rw there at (same ∙ stamped) in
      let renamed : c' ≡ record c { last_expansion = some t } =
        resolve_pvc_config-IsParsed lib r.global_config (env_of lib r second) later
          (insert annotation_last_expansion stamp a) (record c { last_expansion = some t }) c' kept
          (IsParsed-insert lib r.global_config a c stamp t read i) e in
      rw renamed (
        (is_in_cooldown_iff (record c { last_expansion = some t }) second.now t refl low high).1
          soon)

  -- The cooldown holds across the cycles. If the annotations of a PVC parse to `c`, one round sends
  -- `copy` for it, and the text of that round's stamp reads as `t`, then no later round updates a
  -- PVC that still has the copy's annotations while its clock is before `t` plus the cooldown,
  -- whatever its usage, its policies and the rest of the PVC have become; for a cooldown that is an
  -- int64 other than the least.
  pub sent-reconcile_pvc_of_copied :
      (first second : Round F Q S) (volumes volumes' : MetricsCache F)
      (cache cache' : StorageClassCache) (pvc copy later : Pvc Q) (c : PvcConfig F Q) (t : ℤ)
      → parse_pvc_annotations lib (some pvc) (some r.global_config) ≡ ok c
      → sent (reconcile_pvc (env_of lib r first) volumes cache pvc).1 ≡ copy ∷ []
      → lib.parse_time (lib.format_time first.stamp) ≡ some t
      → negsuc (2 ^ 63 - 1) <ℤ c.cooldown
      → c.cooldown ≤ℤ pos (2 ^ 63 - 1)
      → later.annotations ≡ copy.annotations
      → second.now <ℤ t +ℤ c.cooldown
      → sent (reconcile_pvc (env_of lib r second) volumes' cache' later).1 ≡ []
  sent-reconcile_pvc_of_copied first second volumes volumes' cache cache' pvc copy later c t parsed
        sends read low high same soon =
      elim (sent-reconcile_pvc_iff (env_of lib r second) volumes' cache' later later).0 [
        | inl held ↦ held
        | inr (other, e) ↦ absurd (
            refuse ((sent-reconcile_pvc_iff (env_of lib r first) volumes cache pvc copy).1.0 sends)
              other
              ((sent-reconcile_pvc_iff (env_of lib r second) volumes' cache' later other).1.0 e))
      ]
    where
      refuse :
          IsExpansion (env_of lib r first) volumes cache pvc copy
          → (other : Pvc Q) → IsExpansion (env_of lib r second) volumes' cache' later other
          → ⊥
      refuse x other y =
          let cooling =
            copied-is_in_cooldown first second pvc copy later c y.config t x.sends.new_size parsed
              x.sends.copied read low high same y.resolved soon in
          let rested = y.due.rested in cc
