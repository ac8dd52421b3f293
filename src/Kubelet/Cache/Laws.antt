-- ===== src/Kubelet/Cache/Laws.antt =====
-- The keys of the cache tell PVCs apart, so what is stored for one leaves the others alone.
use Prim.Native.Char.{code}
use Prim.Native.String.{[], ◌∷◌, ◌++◌}
use text.Mathlib.TextLemmas.{nil-append, cons-append}
use pvc_chonker.Prelude.{
  lookup, lookup-insert, arith, [], ◌∷◌, Dict, String, ◌≡◌, refl, some, ap, eqb, if◌then◌else◌,
  lookup-insert_self, get_or, ◌⊎◌, inl, inr, Bool-cases, ◌==◌, eq_iff, ◌∙◌, sym,
}
use pvc_chonker.Prelude.Int.{ℤ}
use pvc_chonker.Kube.{NamespacedName}
use pvc_chonker.Libs.{Libs}
use pvc_chonker.Webhook.Pointer.{NoSlash}
use pvc_chonker.Kubelet.Cache.{
  VolumeMetrics, copies, get_all, MetricsCache, Field, assign, zero_metrics,
  key_from_namespaced_name, set_field, get,
}

-- the text before the first slash, and the text after it
before_slash : String → String
before_slash [] = []
before_slash (c ∷ s) = let rest = before_slash s in if eqb (code c) b'/' then [] else c ∷ rest

after_slash : String → String
after_slash [] = []
after_slash (c ∷ s) = let rest = after_slash s in if eqb (code c) b'/' then s else rest

before_slash_lem : (s t : String) → NoSlash s → before_slash (s ++ "/" ++ t) ≡ s
unfolding before_slash
before_slash_lem [] t h = rw (nil-append, cons-append) refl
before_slash_lem (c ∷ s) t (h, hs) = rw cons-append (ground (arith, before_slash_lem s t hs))

after_slash_lem : (s t : String) → NoSlash s → after_slash (s ++ "/" ++ t) ≡ t
unfolding after_slash
after_slash_lem [] t h = rw (nil-append, cons-append, nil-append) refl
after_slash_lem (c ∷ s) t (h, hs) = rw cons-append (ground (arith, after_slash_lem s t hs))

-- Names with one key have one namespace and one name, for namespaces without a slash.
key_from_namespaced_name-injective :
    (a b : NamespacedName)
    → NoSlash a.namespace
    → NoSlash b.namespace
    → key_from_namespaced_name a ≡ key_from_namespaced_name b
    → (a.namespace ≡ b.namespace) × (a.name ≡ b.name)
unfolding key_from_namespaced_name
key_from_namespaced_name-injective a b h k e = (
  sym (before_slash_lem a.namespace a.name h)
      ∙ ap before_slash e
      ∙ before_slash_lem b.namespace b.name k,
  sym (after_slash_lem a.namespace a.name h)
      ∙ ap after_slash e
      ∙ after_slash_lem b.namespace b.name k,
)

module _ {F Q S : Type 0} (lib : Libs F Q S) where
  -- A setter of the cache writes its field to the metrics of its PVC, new metrics with zeros where
  -- there were none, and leaves the metrics of every other PVC as they were, for namespaces without
  -- a slash.
  pub get-set_field :
      (field : Field) (cache : MetricsCache F) (pvc other : NamespacedName) (value : ℤ)
      → NoSlash pvc.namespace
      → NoSlash other.namespace
      → (get (set_field lib field cache pvc value) pvc
          ≡ some (assign field value (get_or (get cache pvc) (zero_metrics lib))))
        × (((pvc.namespace ≡ other.namespace) × (pvc.name ≡ other.name))
            ⊎ (get (set_field lib field cache pvc value) other ≡ get cache other))
  unfolding get set_field
  get-set_field field cache pvc other value h k = (
    lookup-insert_self (key_from_namespaced_name pvc) _ cache.entries,
    elim (Bool-cases (key_from_namespaced_name pvc == key_from_namespaced_name other)) [
      | inl same ↦ inl (key_from_namespaced_name-injective pvc other h k ((eq_iff _ _).0 same))
      | inr differ ↦ inr (
          lookup-insert (key_from_namespaced_name pvc) (key_from_namespaced_name other) _
            cache.entries
          ∙ rw differ refl)
    ],
  )

lookup-copies :
    {F : Type 0} (key : String) (entries : Dict (VolumeMetrics F))
    → lookup key (copies entries) ≡ lookup key entries
unfolding copies lookup
lookup-copies key [] = refl
lookup-copies key ((k, vm) ∷ entries) =
    ground (arith, lookup-insert k key vm (copies entries), lookup-copies key entries)

-- GetAll gives a map that answers like the cache.
pub lookup-get_all :
    {F : Type 0} (cache : MetricsCache F) (nn : NamespacedName)
    → lookup (key_from_namespaced_name nn) (get_all cache) ≡ get cache nn
unfolding get_all get
lookup-get_all cache nn = lookup-copies (key_from_namespaced_name nn) cache.entries
