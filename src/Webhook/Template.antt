-- ===== src/Webhook/Template.antt =====
-- getTemplateAnnotations: the annotations that a group's template adds to those that are there. Go
-- visits the resulting map in some order; the model lists it in the order of the code's writes.
use pvc_chonker.Prelude.{String, Option, none, some, List, [], ◌∷◌, Dict, lookup, insert}
use pvc_chonker.Kube.{GroupTemplate}
use pvc_chonker.Libs.{Libs}
use pvc_chonker.Annotations.Types.{
  annotation_threshold, annotation_inodes_threshold, annotation_increase, annotation_max_size,
  annotation_cooldown, annotation_min_scale_up,
}
use mathlib.Core.Option as Option

-- `if template.Field != nil { if _, exists := existing[key]; !exists { result[key] = text } }`
unfoldable pub set_missing : Dict String → String → Option String → Dict String → Dict String
set_missing existing key none result = result
set_missing existing key (some text) result = elim (lookup key existing) [
  | some there ↦ result
  | none ↦ insert key text result
]

module _ {F Q S : Type 0} (lib : Libs F Q S) where
  -- the texts of the template's fields, in the order of the code
  abbrev pub template_texts : GroupTemplate Q → List (String × Option String)
  template_texts template =
      (annotation_threshold, template.threshold)
      ∷ (annotation_increase, template.increase)
      ∷ (annotation_max_size, Option.map lib.quantity_string template.max_size)
      ∷ (annotation_cooldown, Option.map lib.duration_string template.cooldown)
      ∷ (annotation_inodes_threshold, template.inodes_threshold)
      ∷ (annotation_min_scale_up, Option.map lib.quantity_string template.min_scale_up)
      ∷ []

  unfoldable pub get_template_annotations : GroupTemplate Q → Dict String → Dict String
  unfolding set_missing
  get_template_annotations template existing =
      set_missing existing annotation_min_scale_up
        (Option.map lib.quantity_string template.min_scale_up)
        (set_missing existing annotation_inodes_threshold template.inodes_threshold (
          set_missing existing annotation_cooldown
            (Option.map lib.duration_string template.cooldown)
            (set_missing existing annotation_max_size
              (Option.map lib.quantity_string template.max_size)
              (set_missing existing annotation_increase template.increase
                (set_missing existing annotation_threshold template.threshold [])))))
