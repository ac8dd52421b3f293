-- ===== src/Tests/Groups.antt =====
-- The webhook, the groups, the policies' status and the cache of volume metrics at concrete inputs.
use pvc_chonker.Prelude.{
  false, ◌↔◌, ℕ, ◌*◌, String, Bool, true, none, some, Dict, List, [], ◌∷◌, map, ◌≡◌, refl, ok,
  lookup, insert, select,
}
use pvc_chonker.Prelude.Int.{ℤ, pos, int32_of}
use pvc_chonker.Kube.{Pvc, Policy, Group, NamespacedName}
use pvc_chonker.Webhook.Pointer.{
  escape_json_pointer, unescape_json_pointer, NoSlash, unescape-escape,
}
use pvc_chonker.Webhook.Template.{get_template_annotations, set_missing}
use pvc_chonker.Webhook.Mutator.{
  insert_all, annotation_group, patches_of, handle, default, group_of, is_disabled, respond, Patch,
}
use pvc_chonker.Webhook.Agree.{apply_patches, handle-default}
use pvc_chonker.Group.Members.{done, calculate_largest_size, coordinate_pvc_sizes}
use pvc_chonker.Group.Members.Converges.{settled, coordinate_pvc_sizes-converges}
use pvc_chonker.Group.Members.Coordinated.{
  sent, is_below, AreResized, coordinate_pvc_sizes-AreResized,
}
use pvc_chonker.PolicyStatus.{reconcile, selects_labels, find_pvc_policies_for_pvc}
use pvc_chonker.PolicyStatus.Agree.{pvcs_in, number_leading, reconcile-number_leading}
use pvc_chonker.Annotations.Types.{PvcConfig, annotation_enabled, annotation_threshold}
use pvc_chonker.Annotations.Parse.{parse_pvc_annotations}
use pvc_chonker.Webhook.Layers.{IsLayered, default-parse_pvc_annotations}
use pvc_chonker.Tests.Toy.{gib, toy, toy_laws, toy_global}

abbrev member : ℕ → Pvc ℤ
member requested = record {
  name = "data";
  namespace = "apps";
  labels = none;
  annotations = some ((annotation_group, "db") ∷ []);
  requests = some (("storage", pos (requested * gib)) ∷ []);
  volume_mode = none;
  storage_class_name = none;
  phase = "Bound";
  capacity = none;
  conditions = [];
}

abbrev group : Group ℤ
group = record {
  name = "db";
  namespace = "apps";
  template = record {
    enabled = none;
    threshold = some "70%";
    inodes_threshold = none;
    increase = none;
    max_size = none;
    min_scale_up = none;
    cooldown = none;
  };
  status = record {
    member_count = pos 0;
    current_size = none;
    last_expansion = none;
    last_updated = none;
  };
}

abbrev policy : Policy ℤ Bool
policy = record {
  name = "all";
  namespace = "apps";
  selector = true;
  template = record {
    enabled = none;
    threshold = none;
    inodes_threshold = none;
    increase = none;
    max_size = none;
    min_scale_up = none;
    cooldown = none;
  };
  status = record { matched_pvcs = pos 0; last_updated = none };
}

unescape-escape_example :
    (unescape_json_pointer (escape_json_pointer "a/b~1") ≡ "a/b~1")
    × NoSlash (escape_json_pointer "a/b~1")
unescape-escape_example = unescape-escape "a/b~1"

abbrev patch : Patch
patch = record { path = "/metadata/annotations/pvc-chonker.io~1threshold"; value = "70%" }

handle-default_example :
    (after : Dict String) × (apply_patches (patch ∷ []) ((annotation_group, "db") ∷ [])
      ≡ some after)
    × (default toy (λ name. ok group) (member 1)
        ≡ ok (record (member 1) { annotations = some after }))
unfolding handle respond patches_of get_template_annotations set_missing insert lookup group_of
    is_disabled escape_json_pointer
handle-default_example =
    handle-default toy (λ name. ok group) String (member 1) ((annotation_group, "db") ∷ [])
      (patch ∷ []) refl refl

coordinate_pvc_sizes-AreResized_example :
    AreResized toy
      (pos (5 * gib))
      (λ pvc. none)
      (select (is_below toy (pos (5 * gib))) (member 3 ∷ member 5 ∷ []))
      (sent (coordinate_pvc_sizes toy (λ pvc. none) (member 3 ∷ member 5 ∷ []) (pos (5 * gib))).1)
unfolding coordinate_pvc_sizes lookup
coordinate_pvc_sizes-AreResized_example =
    coordinate_pvc_sizes-AreResized toy (pos (5 * gib)) (λ pvc. none) (member 3 ∷ member 5 ∷ [])
      refl

-- the two members after a coordination
abbrev levelled : List (Pvc ℤ)
levelled =
    map (settled toy (calculate_largest_size toy (member 3 ∷ member 5 ∷ [])))
      (member 3 ∷ member 5 ∷ [])

coordinate_pvc_sizes-converges_example :
    coordinate_pvc_sizes toy (λ pvc. none) levelled (calculate_largest_size toy levelled)
    ≡ (done, [])
unfolding coordinate_pvc_sizes calculate_largest_size lookup
coordinate_pvc_sizes-converges_example =
    coordinate_pvc_sizes-converges toy toy_laws (λ pvc. none) (member 3 ∷ member 5 ∷ []) refl

-- a policy of the same namespace whose selector is invalid comes first
abbrev policies : List (Policy ℤ Bool)
policies = record policy { name = "broken"; selector = false } ∷ policy ∷ []

-- two PVCs of the policy's namespace and one of another
abbrev claims : List (Pvc ℤ)
claims = member 3 ∷ record (member 1) { namespace = "other" } ∷ member 5 ∷ []

reconcile-number_leading_example :
    (reconcile toy (pvcs_in toy policies policy claims) (λ p. none) (pos 7) (ok policy)).1
    ≡ some (record policy {
      status = record {
        matched_pvcs = int32_of (number_leading toy policies policy claims);
        last_updated = some (pos 7);
      };
    })
reconcile-number_leading_example =
    reconcile-number_leading toy policies policy (λ p. none) (pos 7) claims (λ labels. true)
      (λ e. cc, (λ e. refl, tt)) refl refl

two_leading : number_leading toy policies policy claims ≡ 2
unfolding number_leading find_pvc_policies_for_pvc selects_labels
two_leading = refl

abbrev name_of : String → NamespacedName
name_of name = record { namespace = "apps"; name = name }

-- a PVC that is enabled and names the group
abbrev grouped : Dict String
grouped = (annotation_group, "db") ∷ (annotation_enabled, "true") ∷ []

abbrev grouped_pvc : Pvc ℤ
grouped_pvc = record (member 1) { annotations = some grouped }

abbrev defaulted_pvc : Pvc ℤ
defaulted_pvc = record (member 1) {
  annotations = some (
      (annotation_group, "db") ∷ (annotation_enabled, "true") ∷ (annotation_threshold, "70%") ∷ []);
}

-- the threshold of the template, and else the global values
abbrev layered : PvcConfig ℤ ℤ
layered = record {
  enabled = true;
  threshold = pos 70;
  inodes_threshold = pos 80;
  increase = "10%";
  max_size = pos 0;
  cooldown = pos 900;
  min_scale_up = pos gib;
  last_expansion = none;
}

default-parse_pvc_annotations_example :
    (parse_pvc_annotations toy (some defaulted_pvc) (some toy_global) ≡ ok layered)
    ↔ IsLayered toy grouped group.template toy_global layered
unfolding default insert_all get_template_annotations group_of lookup insert
default-parse_pvc_annotations_example =
    default-parse_pvc_annotations toy (λ name. ok group) grouped_pvc defaulted_pvc grouped "db"
      group toy_global layered refl refl refl refl
