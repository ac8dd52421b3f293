-- ===== src/Kubelet/Fetch/Stored.antt =====
-- What a node's samples leave in the cache for one PVC: the last sample of each family counts.
use pvc_chonker.Prelude.{
  String, Bool, true, false, ◌&&◌, Option, none, some, List, [], ◌∷◌, Dict, lookup, ◌≡◌, refl, ◌==◌,
  if◌then◌else◌, get_or, lookup-insert, Bool-cases, Option-cases, eq_iff, inl, inr, ◌∙◌, ap,
}
use pvc_chonker.Prelude.Int.{ℤ}
use pvc_chonker.Kube.{NamespacedName}
use pvc_chonker.Libs.{Libs}
use pvc_chonker.Kubelet.Cache.{
  MetricsCache, VolumeMetrics, Field, capacity, available, inodes, inodes_used, assign,
  zero_metrics, key_from_namespaced_name, set_field, get,
}
use pvc_chonker.Kubelet.Fetch.{
  Sample, parse_metric, is_named, store_samples, store_family, store_families,
}

module _ {F Q S : Type 0} (lib : Libs F Q S) where
  -- a value if the test holds
  abbrev when : Bool → ℤ → Option ℤ
  when true value = some value
  when false value = none

  -- the value of a sample that names a PVC, by the key of `pvc`
  abbrev value_for : NamespacedName → Sample F → Option ℤ
  value_for pvc sample =
      let (name, value) = parse_metric lib sample in
      when (is_named lib name && key_from_namespaced_name name == key_from_namespaced_name pvc)
        value

  abbrev or_value : Option ℤ → Option ℤ → Option ℤ
  or_value none earlier = earlier
  or_value (some later) earlier = some later

  -- the value of the last sample for the PVC
  abbrev last_value : NamespacedName → List (Sample F) → Option ℤ
  last_value pvc [] = none
  last_value pvc (sample ∷ samples) = or_value (last_value pvc samples) (value_for pvc sample)

  -- the metrics with a field that is written if there is a value, to zeros where there were none
  abbrev pub written : Field → Option ℤ → Option (VolumeMetrics F) → Option (VolumeMetrics F)
  written field none there = there
  written field (some value) there = some (assign field value (get_or there (zero_metrics lib)))

  -- the value of the last sample of a family about the PVC
  abbrev pub reported : NamespacedName → String → Dict (List (Sample F)) → Option ℤ
  reported pvc family families = elim (lookup family families) [
    | none ↦ none
    | some samples ↦ last_value pvc samples
  ]

  assign-assign :
      (field : Field) (v w : ℤ) (vm : VolumeMetrics F)
      → assign field v (assign field w vm) ≡ assign field v vm
  assign-assign capacity v w vm = refl
  assign-assign available v w vm = refl
  assign-assign inodes v w vm = refl
  assign-assign inodes_used v w vm = refl

  written-or_value :
      (field : Field) (later earlier : Option ℤ) (there : Option (VolumeMetrics F))
      → written field later (written field earlier there)
        ≡ written field (or_value later earlier) there
  written-or_value field none earlier there = refl
  written-or_value field (some v) none there = refl
  written-or_value field (some v) (some w) there = ap some (assign-assign field v w _)

  pub get-set_field_key :
      (field : Field) (name pvc : NamespacedName) (value : ℤ) (cache : MetricsCache F)
      → get (set_field lib field cache name value) pvc ≡ (
          if key_from_namespaced_name name == key_from_namespaced_name pvc
          then written field (some value) (get cache pvc)
          else get cache pvc)
  unfolding get set_field
  get-set_field_key field name pvc value cache =
      let key = key_from_namespaced_name name in
      let stored = assign field value (get_or (lookup key cache.entries) (zero_metrics lib)) in
      lookup-insert key (key_from_namespaced_name pvc) stored cache.entries
      ∙ (elim (Bool-cases (key == key_from_namespaced_name pvc)) [
        | inl same ↦
            let e : key ≡ key_from_namespaced_name pvc = (eq_iff _ _).0 same in rw (same, ← e) refl
        | inr differ ↦ rw differ refl
      ])

  get-one :
      (field : Field) (name pvc : NamespacedName) (value : ℤ) (cache : MetricsCache F)
      → get (if is_named lib name then set_field lib field cache name value else cache) pvc
        ≡ written field
            (when
              (is_named lib name && key_from_namespaced_name name == key_from_namespaced_name pvc)
              value)
            (get cache pvc)
  get-one field name pvc value cache = elim (Bool-cases (is_named lib name)) [
    | inl named ↦
        elim (Bool-cases (key_from_namespaced_name name == key_from_namespaced_name pvc)) [
          | inl same ↦ rw (named, get-set_field_key, same) refl
          | inr differ ↦ rw (named, get-set_field_key, differ) refl
        ]
    | inr unnamed ↦ rw unnamed refl
  ]

  get-store_samples :
      (field : Field) (samples : List (Sample F)) (cache : MetricsCache F) (pvc : NamespacedName)
      → get (store_samples lib field samples cache) pvc
        ≡ written field (last_value pvc samples) (get cache pvc)
  unfolding store_samples
  get-store_samples field [] cache pvc = refl
  get-store_samples field (sample ∷ samples) cache pvc =
      let (name, value) = parse_metric lib sample in
      get-store_samples field samples _ pvc
      ∙ ap (written field (last_value pvc samples)) (get-one field name pvc value cache)
      ∙ written-or_value field (last_value pvc samples) (value_for pvc sample) (get cache pvc)

  get-store_family :
      (field : Field) (family : String) (families : Dict (List (Sample F))) (cache : MetricsCache F)
      (pvc : NamespacedName)
      → get (store_family lib field family families cache) pvc
        ≡ written field (reported pvc family families) (get cache pvc)
  unfolding store_family
  get-store_family field family families cache pvc = elim (Option-cases (lookup family families)) [
    | inl missing ↦ rw (missing, store_family, reported) refl
    | inr (samples, found) ↦
        rw (found, store_family, reported) (get-store_samples field samples cache pvc)
  ]

  -- After the samples of a node are stored, the metrics of a PVC are those of before with four
  -- fields written, each to the value of the last sample of its family whose namespace and name
  -- are not empty and give the PVC's key; a field without such a sample is left, and a PVC without
  -- one has no metrics that it had not before.
  pub get-store_families :
      (families : Dict (List (Sample F))) (cache : MetricsCache F) (pvc : NamespacedName)
      → get (store_families lib families cache) pvc
        ≡ written inodes_used (reported pvc "kubelet_volume_stats_inodes_used" families) (
            written inodes (reported pvc "kubelet_volume_stats_inodes" families) (
              written available (reported pvc "kubelet_volume_stats_available_bytes" families) (
                written capacity
                  (reported pvc "kubelet_volume_stats_capacity_bytes" families)
                  (get cache pvc))))
  unfolding store_families
  get-store_families families cache pvc = simp (get-store_family)
