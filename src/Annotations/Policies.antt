-- ===== src/Annotations/Policies.antt =====
-- pkg/annotations/policy.go: the configuration of a PVC, from its own annotations or from the first
-- PVCPolicy of its namespace that selects it. What the API server answers to the List call is an
-- argument.
pub mod FirstMatch
pub mod Sources
use pvc_chonker.Prelude.{
  String, Bool, true, false, Option, none, some, List, [], ◌∷◌, ◌==◌, if◌then◌else◌, Result, ok,
  err, lookup_nil, get_or, Dict,
}
use pvc_chonker.Prelude.Int.{ℤ}
use pvc_chonker.Prelude.Text.{to_lower}
use pvc_chonker.Kube.{Pvc, Policy, PolicyTemplate, ApiError}
use pvc_chonker.Libs.{Libs}
use pvc_chonker.Annotations.Types.{GlobalConfig, PvcConfig, annotation_enabled}
use pvc_chonker.Annotations.Percentage.{parse_percentage}
use pvc_chonker.Annotations.Parse.{parse_pvc_annotations}

pub data ResolveError : Type 0 where
  list_failed : ApiError → ResolveError
  invalid_selector : ResolveError
  not_managed : ResolveError

unfoldable pub get_bool_value : Option Bool → Bool → Bool
get_bool_value ptr default = get_or ptr default

unfoldable pub get_string_value : Option String → String → String
get_string_value ptr default = get_or ptr default

unfoldable pub get_quantity_value : {Q : Type 0} → Option Q → Q → Q
get_quantity_value ptr default = get_or ptr default

unfoldable pub get_duration_value : Option ℤ → ℤ → ℤ
get_duration_value ptr default = get_or ptr default

-- `strings.ToLower(enabled) == "false"` for the annotation that is present
unfoldable pub is_switched_off : Option (Dict String) → Bool
is_switched_off annotations = elim (lookup_nil annotation_enabled annotations) [
  | none ↦ false
  | some enabled ↦ to_lower enabled == "false"
]

module _ {F Q S : Type 0} (lib : Libs F Q S) where
  -- a text that does not parse counts as missing
  unfoldable pub get_threshold_value : Option String → F → F
  get_threshold_value none default = default
  get_threshold_value (some s) default = elim (parse_percentage lib s) [
    | ok val ↦ val
    | err e ↦ default
  ]

  unfoldable pub build_config_from_policy : Policy Q S → GlobalConfig F Q → PvcConfig F Q
  unfolding get_threshold_value get_bool_value get_string_value get_quantity_value
      get_duration_value
  build_config_from_policy policy global = record {
    enabled = get_bool_value policy.template.enabled true;
    threshold = get_threshold_value policy.template.threshold global.threshold;
    inodes_threshold = get_threshold_value policy.template.inodes_threshold global.inodes_threshold;
    increase = get_string_value policy.template.increase global.increase;
    max_size = get_quantity_value policy.template.max_size global.max_size;
    min_scale_up = get_quantity_value policy.template.min_scale_up global.min_scale_up;
    cooldown = get_duration_value policy.template.cooldown global.cooldown;
    last_expansion = none;
  }

  -- the loop over policies.Items
  unfoldable pub match_policies :
      List (Policy Q S)
      → Option (Dict String)
      → GlobalConfig F Q
      → Result ResolveError (PvcConfig F Q)
  match_policies [] labels global = err not_managed
  match_policies (policy ∷ policies) labels global = elim (lib.selects policy.selector) [
    | none ↦ err invalid_selector
    | some matches ↦
        if matches labels
        then ok (build_config_from_policy policy global)
        else match_policies policies labels global
  ]

  -- the configuration of a PVC that is switched off
  abbrev pub switched_off_config : GlobalConfig F Q → PvcConfig F Q
  switched_off_config global = record {
    enabled = false;
    threshold = global.threshold;
    inodes_threshold = global.inodes_threshold;
    increase = global.increase;
    max_size = global.max_size;
    min_scale_up = global.min_scale_up;
    cooldown = global.cooldown;
    last_expansion = none;
  }

  -- the List call, and the loop
  from_policies :
      Result ApiError (List (Policy Q S))
      → Pvc Q
      → GlobalConfig F Q
      → Result ResolveError (PvcConfig F Q)
  from_policies (err e) pvc global = err (list_failed e)
  from_policies (ok policies) pvc global = match_policies policies pvc.labels global

  unfoldable pub resolve_pvc_config :
      (String → Result ApiError (List (Policy Q S)))
      → Pvc Q
      → GlobalConfig F Q
      → Result ResolveError (PvcConfig F Q)
  unfolding from_policies is_switched_off
  resolve_pvc_config list_policies pvc global =
      if is_switched_off pvc.annotations
      then ok (switched_off_config global)
      else elim (parse_pvc_annotations lib (some pvc) (some global)) [
        | ok config ↦ ok config
        | err e ↦ from_policies (list_policies pvc.namespace) pvc global
      ]
