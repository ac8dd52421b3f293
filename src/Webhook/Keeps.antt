-- ===== src/Webhook/Keeps.antt =====
-- What Default leaves in each annotation: the value that was there, else the template's.
use pvc_chonker.Prelude.{
  String, true, false, Option, none, some, List, [], ◌∷◌, Result, ok, ◌≡◌, ◌==◌, eq_iff, refl,
  arith, ◌∙◌, if◌then◌else◌, Dict, lookup, insert, lookup-insert, inl, inr, Option-cases,
  Bool-cases, All, ◌⊎◌,
}
use pvc_chonker.Kube.{Pvc, Group, GroupTemplate, ApiError, NamespacedName}
use pvc_chonker.Libs.{Libs}
use pvc_chonker.Webhook.Template.{set_missing, template_texts, get_template_annotations}
use pvc_chonker.Webhook.Mutator.{insert_all, group_of, default}

-- the first of the two that is there
abbrev pub or_option {ℓ} : {A : Type ℓ} → Option A → Option A → Option A
or_option none b = b
or_option (some a) b = some a

-- the text of a key among the template's, or none
abbrev pub wanted : List (String × Option String) → String → Option String
wanted [] j = none
wanted ((k, text) ∷ texts) j = if k == j then text else wanted texts j

-- No key of the map is there twice.
abbrev IsDistinct : Dict String → Type 0
IsDistinct [] = Unit
IsDistinct ((k, v) ∷ m) = (lookup k m ≡ none) × IsDistinct m

insert-IsDistinct : (k v : String) (m : Dict String) → IsDistinct m → IsDistinct (insert k v m)
unfolding insert lookup
insert-IsDistinct k v [] h = (refl, tt)
insert-IsDistinct k v ((j, w) ∷ m) (fresh, h) = elim (Bool-cases (j == k)) [
  | inl same ↦ let e : j ≡ k = (eq_iff j k).0 same in rw same (rw e at fresh, h)
  | inr other ↦
      rw other
        (ground (arith, lookup-insert k j v m, eq_iff k j, eq_iff j k), insert-IsDistinct k v m h)
]

set_missing_there :
    (ex : Dict String) (k w : String) (o : Option String) (m : Dict String)
    → lookup k ex ≡ some w
    → set_missing ex k o m ≡ m
unfolding set_missing
set_missing_there ex k w none m h = refl
set_missing_there ex k w (some v) m h = ground arith

set_missing_new :
    (ex : Dict String) (k v : String) (m : Dict String)
    → lookup k ex ≡ none
    → set_missing ex k (some v) m ≡ insert k v m
unfolding set_missing
set_missing_new ex k v m h = ground arith

set_missing-IsDistinct :
    (ex : Dict String) (k : String) (o : Option String) (m : Dict String)
    → IsDistinct m
    → IsDistinct (set_missing ex k o m)
set_missing-IsDistinct ex k none m h = unfold set_missing in h
set_missing-IsDistinct ex k (some v) m h = elim (Option-cases (lookup k ex)) [
  | inl missing ↦ rw (set_missing_new ex k v m missing) (insert-IsDistinct k v m h)
  | inr (w, there) ↦ rw (set_missing_there ex k w (some v) m there) h
]

lookup-insert_all :
    (entries m : Dict String) (j : String)
    → IsDistinct entries
    → lookup j (insert_all entries m) ≡ or_option (lookup j entries) (lookup j m)
unfolding insert_all lookup
lookup-insert_all [] m j h = refl
lookup-insert_all ((k, v) ∷ entries) m j (fresh, h) =
    lookup-insert_all entries (insert k v m) j h ∙ (elim (Bool-cases (k == j)) [
      | inl same ↦
          let e : k ≡ j = (eq_iff k j).0 same in
          let none_later : lookup j entries ≡ none = rw e at fresh in
          rw (same, none_later) (ground (arith, lookup-insert k j v m))
      | inr other ↦ rw other (ground (arith, lookup-insert k j v m))
    ])

-- what a key is given that the map `ex` may have, over what it has already
abbrev added : Dict String → String → Option String → Option String → Option String
added ex j text old = elim (lookup j ex) [ some w ↦ old | none ↦ or_option text old ]

lookup-set_missing :
    (ex : Dict String) (k : String) (o : Option String) (m : Dict String) (j : String)
    → lookup j (set_missing ex k o m) ≡ (if k == j then added ex j o (lookup j m) else lookup j m)
unfolding set_missing
lookup-set_missing ex k none m j = ground arith
lookup-set_missing ex k (some v) m j = ground (arith, eq_iff k j, lookup-insert k j v m)

-- The texts have keys that differ.
abbrev AreDistinct : List (String × Option String) → Type 0
AreDistinct [] = Unit
AreDistinct ((k, text) ∷ texts) =
    All (λ (entry : String × Option String). (entry.0 == k) ≡ false) texts × AreDistinct texts

wanted_absent :
    (texts : List (String × Option String)) (j : String)
    → All (λ (entry : String × Option String). (entry.0 == j) ≡ false) texts
    → wanted texts j ≡ none
wanted_absent [] j h = refl
wanted_absent ((k, text) ∷ texts) j (other, h) = rw other (wanted_absent texts j h)

set_all : Dict String → List (String × Option String) → Dict String → Dict String
set_all ex [] m = m
set_all ex ((k, text) ∷ texts) m = set_all ex texts (set_missing ex k text m)

lookup-set_all :
    (ex : Dict String) (texts : List (String × Option String)) (m : Dict String) (j : String)
    → AreDistinct texts
    → lookup j (set_all ex texts m) ≡ added ex j (wanted texts j) (lookup j m)
unfolding set_all
lookup-set_all ex [] m j h = ground arith
lookup-set_all ex ((k, text) ∷ texts) m j (apart, h) =
    lookup-set_all ex texts (set_missing ex k text m) j h ∙ step (Bool-cases (k == j))
  where
    step :
        ((k == j) ≡ true) ⊎ ((k == j) ≡ false)
        → added ex j (wanted texts j) (lookup j (set_missing ex k text m))
          ≡ added ex j (if k == j then text else wanted texts j) (lookup j m)
    step (inl same) =
        let e : k ≡ j = (eq_iff k j).0 same in
        let later : wanted texts j ≡ none = wanted_absent texts j (rw e at apart) in
        rw (lookup-set_missing ex k text m j, same, later) (ground arith)
    step (inr other) = rw (lookup-set_missing ex k text m j, other)

set_all-IsDistinct :
    (ex : Dict String) (texts : List (String × Option String)) (m : Dict String)
    → IsDistinct m
    → IsDistinct (set_all ex texts m)
unfolding set_all
set_all-IsDistinct ex [] m h = h
set_all-IsDistinct ex ((k, text) ∷ texts) m h =
    set_all-IsDistinct ex texts (set_missing ex k text m) (set_missing-IsDistinct ex k text m h)

module _ {F Q S : Type 0} (lib : Libs F Q S) where
  get_template_annotations-eq :
      (template : GroupTemplate Q) (ex : Dict String)
      → get_template_annotations lib template ex ≡ set_all ex (template_texts lib template) []
  unfolding get_template_annotations set_all
  get_template_annotations-eq template ex = refl

  template_texts-AreDistinct :
      (template : GroupTemplate Q) → AreDistinct (template_texts lib template)
  template_texts-AreDistinct template = (
    (refl, (refl, (refl, (refl, (refl, tt))))),
    (
      (refl, (refl, (refl, (refl, tt)))),
      ((refl, (refl, (refl, tt))), ((refl, (refl, tt)), ((refl, tt), (tt, tt)))),
    ),
  )

  pub lookup-insert_all-get_template_annotations :
      (template : GroupTemplate Q) (annotations : Dict String) (j : String)
      → lookup j (insert_all (get_template_annotations lib template annotations) annotations)
        ≡ or_option (lookup j annotations) (wanted (template_texts lib template) j)
  lookup-insert_all-get_template_annotations template annotations j =
      let texts = template_texts lib template in
      rw
        (
          get_template_annotations-eq template annotations,
          lookup-insert_all (set_all annotations texts []) annotations j
              (set_all-IsDistinct annotations texts [] tt),
          lookup-set_all annotations texts [] j (template_texts-AreDistinct template),
        )
        (unfold lookup in ground arith)

-- A PVC that names a group that exists gets the group's template: Default succeeds, changes only
-- the annotations, and afterwards every key has the value that it had before, or, where it had
-- none, the text that the template has for it.
pub default-or_option :
    {F Q S : Type 0} (lib : Libs F Q S) (get_group : NamespacedName → Result ApiError (Group Q))
    (pvc : Pvc Q) (annotations : Dict String) (name : String) (group : Group Q)
    → pvc.annotations ≡ some annotations
    → group_of annotations ≡ some name
    → get_group (record { namespace = pvc.namespace; name = name }) ≡ ok group
    → (after : Dict String) × (default lib get_group pvc
        ≡ ok (record pvc { annotations = some after }))
      × ((key : String)
          → lookup key after
            ≡ or_option (lookup key annotations) (wanted (template_texts lib group.template) key))
unfolding default
default-or_option lib get_group pvc annotations name group there named found = (
  insert_all (get_template_annotations lib group.template annotations) annotations,
  ground arith,
  lookup-insert_all-get_template_annotations lib group.template annotations,
)
