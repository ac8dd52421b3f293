-- ===== src/Webhook/Agree.antt =====
-- The JSON patch of Handle and the change of Default do the same. What a patch does is written here
-- from RFC 6902 and RFC 6901: the path of an operation "add" is parted at its slashes, each token
-- is decoded, and the operation sets the member of the annotations to which the tokens lead, or
-- fails.
use Prim.Native.Char.{Char, code}
use Prim.Native.String
use Prim.Native.String.{[], ◌∷◌}
use text.Mathlib.TextLemmas.{nil-append, cons-append}
use pvc_chonker.Prelude.{
  ℕ, String, Bool, true, false, Option, none, some, List, Result, ok, err, ◌≡◌, ◌==◌, refl, arith,
  if◌then◌else◌, eqb, Dict, lookup, insert, inl, inr, Option-cases, Bool-cases, ◌∙◌, ap, sym, map,
  ◌&&◌,
}
use pvc_chonker.Prelude as L
use pvc_chonker.Kube.{Pvc, Group, ApiError, NamespacedName}
use pvc_chonker.Libs.{Libs}
use pvc_chonker.Webhook.Pointer.{
  escape_json_pointer, unescape_json_pointer, NoSlash, unescape-escape,
}
use pvc_chonker.Webhook.Template.{get_template_annotations}
use pvc_chonker.Webhook.Mutator.{
  Patch, patched, annotations_path, patches_of, insert_all, respond, group_of, handle, default,
}

-- A text up to its first slash, and the texts that the slashes part after that.
split_slash : String → String × List String
split_slash [] = ([], L.[])
split_slash (c ∷ s) =
    let (first, rest) = split_slash s in
    if eqb (code c) b'/' then ([], L.◌∷◌ first rest) else (c ∷ first, rest)

-- RFC 6901, section 3: the reference tokens of a pointer, each after a slash, decoded
reference_tokens : String → Option (List String)
unfolding split_slash
reference_tokens path =
    let (before, tokens) = split_slash path in
    if before == "" then some (map unescape_json_pointer tokens) else none

-- the member of the annotations to which the tokens lead, none where they lead elsewhere
member_of : List String → Option String
member_of (L.◌∷◌ a (L.◌∷◌ b (L.◌∷◌ key L.[]))) =
    if a == "metadata" && b == "annotations" then some key else none
member_of _ = none

-- one operation "add", on the annotations; none where its path leads to no member of them
apply_patch : Patch → Dict String → Option (Dict String)
unfolding reference_tokens
apply_patch patch annotations = elim (reference_tokens patch.path) [
  | none ↦ none
  | some tokens ↦ elim (member_of tokens) [
    | none ↦ none
    | some key ↦ some (insert key patch.value annotations)
  ]
]

-- the operations of a patch, in order
pub apply_patches : List Patch → Dict String → Option (Dict String)
unfolding apply_patch
apply_patches L.[] annotations = some annotations
apply_patches (L.◌∷◌ patch patches) annotations = elim (apply_patch patch annotations) [
  | none ↦ none
  | some after ↦ apply_patches patches after
]

-- the text after the last slash made longer
extend : String × List String → String → String × List String
extend (first, L.[]) s = (String.◌++◌ first s, L.[])
extend (first, L.◌∷◌ next rest) s =
    let (longer, more) = extend (next, rest) s in (first, L.◌∷◌ longer more)

extend-cons :
    (c : Char) (first : String) (rest : List String) (s : String)
    → extend (c ∷ first, rest) s ≡ (c ∷ (extend (first, rest) s).0, (extend (first, rest) s).1)
unfolding extend
extend-cons c first L.[] s = rw cons-append refl
extend-cons c first (L.◌∷◌ next rest) s = refl

split_slash-NoSlash : (s : String) → NoSlash s → split_slash s ≡ (s, L.[])
unfolding split_slash
split_slash-NoSlash [] h = refl
split_slash-NoSlash (c ∷ s) (plain, h) =
    let other : eqb (code c) b'/' ≡ false = ground arith in rw (split_slash-NoSlash s h, other) refl

-- A text without a slash stays in one piece at the end of a pointer.
split_slash-append :
    (p s : String) → NoSlash s → split_slash (String.◌++◌ p s) ≡ extend (split_slash p) s
unfolding split_slash extend
split_slash-append [] s h = rw nil-append (split_slash-NoSlash s h)
split_slash-append (c ∷ p) s h =
    rw (cons-append, split_slash-append p s h)
      (elim (Bool-cases (eqb (code c) b'/')) [
        | inl slash ↦ rw slash refl
        | inr plain ↦ rw plain (sym (extend-cons c (split_slash p).0 (split_slash p).1 s))
      ])

split_slash-annotations_path :
    split_slash annotations_path ≡ ("", L.◌∷◌ "metadata" (L.◌∷◌ "annotations" (L.◌∷◌ "" L.[])))
unfolding split_slash
split_slash-annotations_path = refl

extend-annotations_path :
    (s : String)
    → extend (split_slash annotations_path) s
      ≡ ("", L.◌∷◌ "metadata" (L.◌∷◌ "annotations" (L.◌∷◌ s L.[])))
extend-annotations_path s = rw split_slash-annotations_path (unfold extend in rw nil-append refl)

reference_tokens-key :
    (key : String)
    → reference_tokens (String.◌++◌ annotations_path (escape_json_pointer key))
      ≡ some (L.◌∷◌ "metadata" (L.◌∷◌ "annotations" (L.◌∷◌ key L.[])))
unfolding reference_tokens
reference_tokens-key key =
    let (back, clean) = unescape-escape key in
    let parted =
      split_slash-append annotations_path (escape_json_pointer key) clean
      ∙ extend-annotations_path (escape_json_pointer key) in
    rw (parted, back) (unfold unescape_json_pointer in refl)

apply_patch-add :
    (key value : String) (annotations : Dict String)
    → apply_patch
        (record { path = String.◌++◌ annotations_path (escape_json_pointer key); value = value })
        annotations
      ≡ some (insert key value annotations)
unfolding apply_patch member_of
apply_patch-add key value annotations = rw (apply_patch, reference_tokens-key key) refl

apply_patches-patches_of :
    (entries annotations : Dict String)
    → apply_patches (patches_of entries) annotations ≡ some (insert_all entries annotations)
unfolding apply_patches patches_of insert_all
apply_patches-patches_of L.[] annotations = refl
apply_patches-patches_of (L.◌∷◌ (key, value) entries) annotations = ground (
  arith,
  apply_patch-add key value annotations,
  apply_patches-patches_of entries (insert key value annotations),
)

respond-patched : (ps qs : List Patch) → respond ps ≡ patched qs → qs ≡ ps
unfolding respond
respond-patched L.[] qs e = cc
respond-patched (L.◌∷◌ p ps) qs e = cc

module _ {F Q S : Type 0} (lib : Libs F Q S)
    (get_group : NamespacedName → Result ApiError (Group Q)) where
  -- Where Handle answers a decoded PVC with a patch, applying it to the PVC's annotations gives the
  -- annotations that Default leaves, and Default succeeds and changes nothing else.
  pub handle-default :
      (E : Type 0) (pvc : Pvc Q) (annotations : Dict String) (patches : List Patch)
      → pvc.annotations ≡ some annotations
      → handle lib get_group {E = E} "PersistentVolumeClaim" (some (ok pvc)) ≡ patched patches
      → (after : Dict String) × (apply_patches patches annotations ≡ some after)
        × (default lib get_group pvc ≡ ok (record pvc { annotations = some after }))
  unfolding handle default
  handle-default E pvc annotations patches there e = elim (Option-cases (group_of annotations)) [
    | inl missing ↦ absurd (ground arith)
    | inr (name, named) ↦
        by_group name named (get_group (record { namespace = pvc.namespace; name = name })) refl
  ]
    where
      by_group :
          (name : String)
          → group_of annotations ≡ some name
          → (r : Result ApiError (Group Q))
          → get_group (record { namespace = pvc.namespace; name = name }) ≡ r
          → (after : Dict String) × (apply_patches patches annotations ≡ some after)
            × (default lib get_group pvc ≡ ok (record pvc { annotations = some after }))
      by_group name named (err x) found = absurd (ground arith)
      by_group name named (ok group) found =
          let entries = get_template_annotations lib group.template annotations in
          let same : patches ≡ patches_of entries =
            respond-patched (patches_of entries) patches (ground arith) in
          (
            insert_all entries annotations,
            rw same (apply_patches-patches_of entries annotations),
            ground arith,
          )
