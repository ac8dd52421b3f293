-- ===== src/Webhook/Layers.antt =====
-- The configuration of a PVC that the webhook has defaulted: its own annotations, then the template
-- of its group, then the global values.
use pvc_chonker.Prelude.{
  String, true, Option, none, some, ◌≡◌, ◌↔◌, ◌==◌, refl, ok, Result, Dict, lookup,
}
use pvc_chonker.Prelude.Int.{ℤ}
use pvc_chonker.Prelude.Text.{to_lower}
use pvc_chonker.Kube.{Pvc, Group, GroupTemplate, ApiError, NamespacedName}
use pvc_chonker.Libs.{Libs}
use pvc_chonker.Annotations.Types.{
  annotation_enabled, annotation_threshold, annotation_inodes_threshold, annotation_increase,
  annotation_max_size, annotation_cooldown, annotation_min_scale_up, annotation_last_expansion,
  GlobalConfig, PvcConfig,
}
use pvc_chonker.Annotations.Percentage.{IsPercentage}
use pvc_chonker.Annotations.Parse.{Reads, IsParsed, parse_pvc_annotations}
use pvc_chonker.Annotations.Parse.Meaning.{parse_pvc_annotations-eq-ok_iff}
use pvc_chonker.Webhook.Template.{template_texts}
use pvc_chonker.Webhook.Mutator.{group_of, default}
use pvc_chonker.Webhook.Keeps.{or_option, wanted, default-or_option}
use mathlib.Core.Option as Option

module _ {F Q S : Type 0} (lib : Libs F Q S) where
  -- Each setting is read from the annotation where that is there, else from the template's text
  -- where the template has one, and else is the global value. Whether the PVC is enabled and when
  -- it was last expanded is for its own annotations alone.
  pub record IsLayered (own : Dict String) (template : GroupTemplate Q) (global : GlobalConfig F Q)
      (c : PvcConfig F Q) : Type 0 where
    pub switch : String
    pub switched : lookup annotation_enabled own ≡ some switch
    pub on : (to_lower switch == "true") ≡ true
    pub enabled : c.enabled ≡ true
    pub threshold :
        Reads
          (or_option (lookup annotation_threshold own) template.threshold)
          (IsPercentage lib)
          global.threshold
          c.threshold
    pub inodes_threshold :
        Reads
          (or_option (lookup annotation_inodes_threshold own) template.inodes_threshold)
          (IsPercentage lib)
          global.inodes_threshold
          c.inodes_threshold
    pub increase :
        Reads
          (or_option (lookup annotation_increase own) template.increase)
          (λ v i. i ≡ v)
          global.increase
          c.increase
    pub max_size :
        Reads
          (or_option
            (lookup annotation_max_size own)
            (Option.map lib.quantity_string template.max_size))
          (λ v q. lib.parse_quantity v ≡ some q)
          global.max_size
          c.max_size
    pub cooldown :
        Reads
          (or_option
            (lookup annotation_cooldown own)
            (Option.map lib.duration_string template.cooldown))
          (λ v d. lib.parse_duration v ≡ some d)
          global.cooldown
          c.cooldown
    pub min_scale_up :
        Reads
          (or_option
            (lookup annotation_min_scale_up own)
            (Option.map lib.quantity_string template.min_scale_up))
          (λ v q. lib.parse_quantity v ≡ some q)
          global.min_scale_up
          c.min_scale_up
    pub last_expansion :
        Reads
          (lookup annotation_last_expansion own)
          (λ v o. (t : ℤ) × (lib.parse_time v ≡ some t) × (o ≡ some t))
          none
          c.last_expansion

  or_option-none : (o : Option String) → or_option o none ≡ o
  or_option-none none = refl
  or_option-none (some v) = refl

  module _ (own after : Dict String) (template : GroupTemplate Q) (global : GlobalConfig F Q)
      (c : PvcConfig F Q)
      (kept : (key : String)
        → lookup key after
          ≡ or_option (lookup key own) (wanted (template_texts lib template) key)) where
    IsParsed-IsLayered : IsParsed lib after global c → IsLayered own template global c
    IsParsed-IsLayered i = record {
      switch = i.switch;
      switched = rw (kept annotation_enabled, or_option-none) at i.switched;
      on = i.on;
      enabled = i.enabled;
      threshold = rw (kept annotation_threshold) at i.threshold;
      inodes_threshold = rw (kept annotation_inodes_threshold) at i.inodes_threshold;
      increase = rw (kept annotation_increase) at i.increase;
      max_size = rw (kept annotation_max_size) at i.max_size;
      cooldown = rw (kept annotation_cooldown) at i.cooldown;
      min_scale_up = rw (kept annotation_min_scale_up) at i.min_scale_up;
      last_expansion = rw (kept annotation_last_expansion, or_option-none) at i.last_expansion;
    }

    IsLayered-IsParsed : IsLayered own template global c → IsParsed lib after global c
    IsLayered-IsParsed i = record {
      switch = i.switch;
      switched = rw (kept annotation_enabled, or_option-none) i.switched;
      on = i.on;
      enabled = i.enabled;
      threshold = rw (kept annotation_threshold) i.threshold;
      inodes_threshold = rw (kept annotation_inodes_threshold) i.inodes_threshold;
      increase = rw (kept annotation_increase) i.increase;
      max_size = rw (kept annotation_max_size) i.max_size;
      cooldown = rw (kept annotation_cooldown) i.cooldown;
      min_scale_up = rw (kept annotation_min_scale_up) i.min_scale_up;
      last_expansion = rw (kept annotation_last_expansion, or_option-none) i.last_expansion;
    }

  -- A PVC that names a group that exists is, once Default has run on it, parsed to `c` exactly if
  -- its own annotations enable it and each setting of `c` is read from its own annotation, where it
  -- had none from the text of the group's template, and where that has none either is the global
  -- value.
  pub default-parse_pvc_annotations :
      (get_group : NamespacedName → Result ApiError (Group Q)) (pvc defaulted : Pvc Q)
      (own : Dict String) (name : String) (group : Group Q) (global : GlobalConfig F Q)
      (c : PvcConfig F Q)
      → pvc.annotations ≡ some own
      → group_of own ≡ some name
      → get_group (record { namespace = pvc.namespace; name = name }) ≡ ok group
      → default lib get_group pvc ≡ ok defaulted
      → (parse_pvc_annotations lib (some defaulted) (some global) ≡ ok c)
        ↔ IsLayered own group.template global c
  default-parse_pvc_annotations get_group pvc defaulted own name group global c there named found
        ran =
      let (after, same, kept) =
        default-or_option lib get_group pvc own name group there named found in
      let e : defaulted ≡ record pvc { annotations = some after } = cc in
      let (to, from) =
        parse_pvc_annotations-eq-ok_iff lib (record pvc { annotations = some after }) global c in
      rw e (
        (λ h.
            let (a, here, i) = to h in
            let renamed : a ≡ after = cc in
            IsParsed-IsLayered own after group.template global c kept (rw renamed at i)),
        λ i. from (after, refl, IsLayered-IsParsed own after group.template global c kept i),
      )
