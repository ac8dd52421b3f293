-- ===== src/Webhook/Mutator.antt =====
-- PVCGroupMutator: Handle answers an admission request with a JSON patch, and Default changes the
-- object in place. The API server's answer to the Get of a group is an argument, as is the decoded
-- object. json.Marshal does not fail on a list of maps of texts, so that branch is left out, and so
-- is the patch for missing annotations, which stands below the return for that case.
use Prim.Native.String.{◌++◌}
use pvc_chonker.Prelude.{
  ℕ, String, Bool, not, Option, none, some, List, [], ◌∷◌, Result, ok, err, ◌==◌, if◌then◌else◌,
  Dict, lookup, insert, get_or,
}
use pvc_chonker.Kube.{Pvc, Group, ApiError, NamespacedName, is_not_found}
use pvc_chonker.Libs.{Libs}
use pvc_chonker.Annotations.Types.{annotation_enabled}
use pvc_chonker.Webhook.Pointer.{escape_json_pointer}
use pvc_chonker.Webhook.Template.{get_template_annotations}

abbrev pub annotation_group : String
annotation_group = "pvc-chonker.io/group"

-- {"op": "add", "path": path, "value": value}
pub record Patch : Type 0 where
  pub path : String
  pub value : String

-- admission.Allowed, admission.Errored with its status code, and a response with a JSON patch
pub data Response : Type 0 where
  allowed : String → Response
  errored : ℕ → Response
  patched : List Patch → Response

abbrev pub annotations_path : String
annotations_path = "/metadata/annotations/"

-- the loop over templateAnnotations in Handle
unfoldable pub patches_of : Dict String → List Patch
patches_of [] = []
patches_of ((key, value) ∷ entries) =
    record { path = annotations_path ++ escape_json_pointer key; value = value }
    ∷ patches_of entries

-- the loop over templateAnnotations in Default
unfoldable pub insert_all : Dict String → Dict String → Dict String
insert_all [] annotations = annotations
insert_all ((key, value) ∷ entries) annotations = insert_all entries (insert key value annotations)

-- `exists && enabled == "false"`
unfoldable pub is_disabled : Dict String → Bool
is_disabled annotations = get_or (lookup annotation_enabled annotations) "" == "false"

-- the group's name, or none where it is missing or empty
unfoldable pub group_of : Dict String → Option String
group_of annotations = elim (lookup annotation_group annotations) [
  | none ↦ none
  | some name ↦ if name == "" then none else some name
]

-- no patch, or the list of them
unfoldable pub respond : List Patch → Response
respond [] = allowed "no patches needed"
respond (p ∷ ps) = patched (p ∷ ps)

module _ {F Q S : Type 0} (lib : Libs F Q S)
    (get_group : NamespacedName → Result ApiError (Group Q)) where
  -- the answer to the Get, for the annotations of the PVC
  grouped : Dict String → Result ApiError (Group Q) → Response
  unfolding respond
  grouped annotations (err e) = if is_not_found e then allowed "PVCGroup not found" else errored 500
  grouped annotations (ok group) =
      respond (patches_of (get_template_annotations lib group.template annotations))

  -- a decoded PVC
  decoded : Pvc Q → Response
  unfolding grouped is_disabled group_of
  decoded pvc = elim pvc.annotations [
    | none ↦ allowed "no annotations"
    | some annotations ↦
        if is_disabled annotations
        then allowed "PVC expansion disabled"
        else elim (group_of annotations) [
          | none ↦ allowed "no group annotation"
          | some name ↦
              grouped annotations (get_group (record { namespace = pvc.namespace; name = name }))
        ]
  ]

  -- Handle: the kind of the request, and the decoder, where there is one, with what it answers
  unfoldable pub handle : {E : Type 0} → String → Option (Result E (Pvc Q)) → Response
  unfolding decoded
  handle kind decoder =
      if not (kind == "PersistentVolumeClaim") then allowed "not a PVC" else elim decoder [
        | none ↦ errored 500
        | some answer ↦ elim answer [ err e ↦ errored 400 | ok pvc ↦ decoded pvc ]
      ]

  -- the answer to the Get in Default
  defaulted : Pvc Q → Dict String → Result ApiError (Group Q) → Result ApiError (Pvc Q)
  defaulted pvc annotations (err e) = if is_not_found e then ok pvc else err e
  defaulted pvc annotations (ok group) = ok (record pvc {
    annotations =
        some (insert_all (get_template_annotations lib group.template annotations) annotations);
  })

  -- Default on a PVC: an error, or the PVC as it is afterwards
  unfoldable pub default : Pvc Q → Result ApiError (Pvc Q)
  unfolding defaulted group_of
  default pvc = elim pvc.annotations [
    | none ↦ ok pvc
    | some annotations ↦ elim (group_of annotations) [
      | none ↦ ok pvc
      | some name ↦
          defaulted pvc annotations (get_group (record { namespace = pvc.namespace; name = name }))
    ]
  ]
