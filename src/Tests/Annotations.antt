-- ===== src/Tests/Annotations.antt =====
-- pkg/annotations at concrete inputs.
use pvc_chonker.Prelude.{
  ℕ, ◌+◌, ◌-◌, ◌*◌, ◌/◌, ◌^◌, String, Bool, true, false, Option, none, some, Dict, List, [], ◌∷◌,
  ◌≡◌, ◌↔◌, inl, inr, refl, arith, Result, ok, lookup,
}
use pvc_chonker.Prelude.Int.{ℤ, pos, ◌≤ℤ◌, ◌<ℤ◌, ◌+ℤ◌}
use pvc_chonker.Prelude.Text.{trim_space, before_percent}
use pvc_chonker.Kube.{Pvc, Policy, ApiError}
use pvc_chonker.Annotations.Types.{
  PvcConfig, not_enabled, annotation_enabled, annotation_last_expansion,
}
use pvc_chonker.Annotations.Percentage.{parse_percentage}
use pvc_chonker.Annotations.Parse.{parse_pvc_annotations, IsParsed}
use pvc_chonker.Annotations.Parse.Meaning.{parse_pvc_annotations-eq-ok_iff}
use pvc_chonker.Annotations.Size.{calculate_new_size, increase_bytes}
use pvc_chonker.Annotations.Size.Bounds.{IsRoundedUp, calculate_new_size-IsRoundedUp}
use pvc_chonker.Annotations.Size.Overflow.{calculate_new_size_overflows}
use pvc_chonker.Annotations.Cooldown.{is_in_cooldown}
use pvc_chonker.Annotations.Cooldown.Window.{is_in_cooldown_iff}
use pvc_chonker.Annotations.Policies.{build_config_from_policy, match_policies, resolve_pvc_config}
use pvc_chonker.Annotations.Policies.Sources.{
  Source, resolve_pvc_config-eq-ok_iff, resolve_pvc_config-is_in_cooldown,
}
use pvc_chonker.Tests.Toy.{gib, toy, toy_global}

-- a configuration with this increase, last expanded at 1000
abbrev config : String → PvcConfig ℤ ℤ
config increase = record {
  enabled = true;
  threshold = pos 80;
  inodes_threshold = pos 80;
  increase = increase;
  max_size = pos 0;
  cooldown = pos 900;
  min_scale_up = pos gib;
  last_expansion = some (pos 1000);
}

abbrev claim_of : Option (Dict String) → Pvc ℤ
claim_of annotations = record {
  name = "data";
  namespace = "apps";
  labels = none;
  annotations = annotations;
  requests = none;
  volume_mode = none;
  storage_class_name = none;
  phase = "Bound";
  capacity = none;
  conditions = record { type = "Resizing"; status = "True" } ∷ [];
}

abbrev policy : Policy ℤ Bool
policy = record {
  name = "all";
  namespace = "apps";
  selector = true;
  template = record {
    enabled = none;
    threshold = some "70%";
    inodes_threshold = none;
    increase = none;
    max_size = none;
    min_scale_up = none;
    cooldown = none;
  };
  status = record { matched_pvcs = pos 0; last_updated = none };
}

parses : parse_percentage toy " 80% " ≡ ok (pos 80)
unfolding parse_percentage trim_space before_percent
parses = refl

abbrev switched_on : Dict String
switched_on = (annotation_enabled, "True") ∷ []

abbrev on_config : PvcConfig ℤ ℤ
on_config = record (config "10%") { last_expansion = none }

parse_pvc_annotations-eq-ok_iff_example :
    (parse_pvc_annotations toy (some (claim_of (some switched_on))) (some toy_global)
      ≡ ok on_config)
    ↔ ((a : Dict String) × ((claim_of (some switched_on)).annotations ≡ some a)
        × IsParsed toy a toy_global on_config)
parse_pvc_annotations-eq-ok_iff_example =
    parse_pvc_annotations-eq-ok_iff toy (claim_of (some switched_on)) toy_global on_config

calculate_new_size-IsRoundedUp_example :
    (r : ℕ) × IsRoundedUp (10 * gib + gib) r
    × (calculate_new_size toy (some (config "5%")) (pos (10 * gib)) ≡ ok (pos r))
unfolding increase_bytes trim_space before_percent
calculate_new_size-IsRoundedUp_example =
    calculate_new_size-IsRoundedUp toy (config "5%") (pos (10 * gib)) (10 * gib) gib
      (pos (5 * gib / 10)) refl refl
      (record { holds_increase = omega arith; holds_minimum = omega arith; one_of_them = inr refl })
      (omega arith)

-- 9 EiB and 1 EiB are more than an int64 holds
calculate_new_size_overflows_example :
    (z : ℤ) × (z ≤ℤ pos 0)
    × (calculate_new_size toy (some (config "1152921504606846976")) (pos (2 ^ 63 - 1)) ≡ ok z)
unfolding increase_bytes trim_space before_percent
calculate_new_size_overflows_example =
    calculate_new_size_overflows toy (config "1152921504606846976") (pos (2 ^ 63 - 1)) (2 ^ 63 - 1)
      (2 ^ 60) (pos (2 ^ 60)) refl refl
      (record { holds_increase = omega arith; holds_minimum = omega arith; one_of_them = inl refl })
      (omega arith) (omega arith) (omega arith)

is_in_cooldown_iff_example :
    (is_in_cooldown (some (config "10%")) (pos 1500) ≡ true) ↔ (pos 1500 <ℤ pos 1000 +ℤ pos 900)
is_in_cooldown_iff_example =
    is_in_cooldown_iff (config "10%") (pos 1500) (pos 1000) refl (omega arith) (omega arith)

abbrev stamped : Pvc ℤ
stamped = claim_of (some ((annotation_enabled, "True") ∷ (annotation_last_expansion, "|||") ∷ []))

abbrev policies_of : String → Result ApiError (List (Policy ℤ Bool))
policies_of namespace = ok (policy ∷ [])

-- managed by the policy alone, and expanded a moment ago
abbrev expanded_claim : Pvc ℤ
expanded_claim = claim_of (some ((annotation_last_expansion, "|||") ∷ []))

resolve_pvc_config-eq-ok_iff_example :
    (resolve_pvc_config toy policies_of expanded_claim toy_global
      ≡ ok (build_config_from_policy toy policy toy_global))
    ↔ Source toy policies_of expanded_claim toy_global
        (build_config_from_policy toy policy toy_global)
resolve_pvc_config-eq-ok_iff_example =
    resolve_pvc_config-eq-ok_iff toy policies_of expanded_claim toy_global
      (build_config_from_policy toy policy toy_global)

resolve_pvc_config-is_in_cooldown_example :
    is_in_cooldown (some (build_config_from_policy toy policy toy_global)) (pos 4) ≡ false
unfolding resolve_pvc_config parse_pvc_annotations match_policies lookup
resolve_pvc_config-is_in_cooldown_example =
    resolve_pvc_config-is_in_cooldown toy policies_of expanded_claim toy_global
      (build_config_from_policy toy policy toy_global) not_enabled (pos 4) refl refl
