-- ===== src/Kubelet/Fetch/Interleaved/AnyOrder.antt =====
-- Where one node alone reports about a PVC, the order in which the nodes write does not matter.
use pvc_chonker.Prelude.{
  String, Bool, false, Option, none, some, List, [], ◌∷◌, ◌++◌, Dict, lookup, ◌==◌, ◌≡◌, ◌⊎◌, refl,
  All, if◌then◌else◌, inl, inr, ◌∙◌, sym, ap, Bool-cases, Option-cases,
}
use pvc_chonker.Kube.{NamespacedName}
use pvc_chonker.Libs.{Libs}
use pvc_chonker.Kubelet.Cache.{
  MetricsCache, VolumeMetrics, Field, get, set_field, key_from_namespaced_name, new_metrics_cache,
  calculate_usage_percentages,
}
use pvc_chonker.Kubelet.Fetch.{
  Sample, parse_metric, is_named, store_samples, store_family, store_families,
}
use pvc_chonker.Kubelet.Fetch.Stored.{written, get-set_field_key, get-store_families}
use pvc_chonker.Kubelet.Fetch.Nodes.{usage_of, after_families, get-calculate_usage_percentages}
use pvc_chonker.Kubelet.Fetch.Interleaved.{
  Write, writes_of_samples, writes_of_family, writes_of, after_writes, Takes, Interleaving, ended,
  takes,
}

module _ {F Q S : Type 0} (lib : Libs F Q S) where
  after_writes-append :
      (first rest : List Write) (cache : MetricsCache F)
      → after_writes lib (first ++ rest) cache
        ≡ after_writes lib rest (after_writes lib first cache)
  unfolding after_writes
  after_writes-append [] rest cache = refl
  after_writes-append (w ∷ first) rest cache =
      after_writes-append first rest (set_field lib w.field cache w.name w.value)

  after_writes-samples :
      (field : Field) (samples : List (Sample F)) (cache : MetricsCache F)
      → after_writes lib (writes_of_samples lib field samples) cache
        ≡ store_samples lib field samples cache
  unfolding after_writes writes_of_samples store_samples
  after_writes-samples field [] cache = refl
  after_writes-samples field (sample ∷ samples) cache =
      elim (Bool-cases (is_named lib (parse_metric lib sample).0)) [
        | inl named ↦ rw named (after_writes-samples field samples _)
        | inr unnamed ↦ rw unnamed (after_writes-samples field samples cache)
      ]

  after_writes-family :
      (field : Field) (family : String) (families : Dict (List (Sample F))) (cache : MetricsCache F)
      → after_writes lib (writes_of_family lib field family families) cache
        ≡ store_family lib field family families cache
  unfolding writes_of_family store_family
  after_writes-family field family families cache = elim (Option-cases (lookup family families)) [
    | inl missing ↦ rw (writes_of_family, store_family, missing) (unfold after_writes in refl)
    | inr (samples, found) ↦
        rw (writes_of_family, store_family, found) (after_writes-samples field samples cache)
  ]

  -- the calls of one node by itself are fetchNodeMetrics
  after_writes-writes_of :
      (families : Dict (List (Sample F))) (cache : MetricsCache F)
      → after_writes lib (writes_of lib families) cache ≡ store_families lib families cache
  unfolding writes_of store_families
  after_writes-writes_of families cache = simp (after_writes-append, after_writes-family) refl

  module _ (pvc : NamespacedName) where
    abbrev is_about : Write → Bool
    is_about w = key_from_namespaced_name w.name == key_from_namespaced_name pvc

    -- the metrics of the PVC after one call, and after these calls
    abbrev see : Write → Option (VolumeMetrics F) → Option (VolumeMetrics F)
    see w there = if is_about w then written lib w.field (some w.value) there else there

    abbrev seen : List Write → Option (VolumeMetrics F) → Option (VolumeMetrics F)
    seen [] there = there
    seen (w ∷ ws) there = seen ws (see w there)

    get-after_writes :
        (ws : List Write) (cache : MetricsCache F)
        → get (after_writes lib ws cache) pvc ≡ seen ws (get cache pvc)
    unfolding after_writes
    get-after_writes [] cache = refl
    get-after_writes (w ∷ ws) cache =
        get-after_writes ws (set_field lib w.field cache w.name w.value)
        ∙ ap (seen ws) (get-set_field_key lib w.field w.name pvc w.value cache)

    -- None of the calls is about the PVC.
    abbrev pub IsQuiet : List Write → Type 0
    IsQuiet ws =
        All
          (λ (w : Write). (key_from_namespaced_name w.name == key_from_namespaced_name pvc) ≡ false)
          ws

    -- One of the goroutines makes the calls `own`, and the others none about the PVC.
    abbrev pub IsSole : List Write → List (List Write) → Type 0
    IsSole own [] = ⊥
    IsSole own (goroutine ∷ others) =
        ((goroutine ≡ own) × All IsQuiet others) ⊎ (IsQuiet goroutine × IsSole own others)

    Takes-IsQuiet :
        (w : Write) (goroutines next : List (List Write))
        → Takes w goroutines next
        → All IsQuiet goroutines
        → (is_about w ≡ false) × All IsQuiet next
    Takes-IsQuiet w [] next nothing h = elim nothing [ ]
    Takes-IsQuiet w (goroutine ∷ others) next (inl (rest, e, now)) (quiet, h) =
        let (first, left) : IsQuiet (w ∷ rest) = rw e at quiet in (first, rw now (left, h))
    Takes-IsQuiet w (goroutine ∷ others) next (inr (later, t, now)) (quiet, h) =
        let (first, left) = Takes-IsQuiet w others later t h in (first, rw now (quiet, left))

    Takes-IsSole :
        (w : Write) (own : List Write) (goroutines next : List (List Write))
        → Takes w goroutines next
        → IsSole own goroutines
        → ((is_about w ≡ false) × IsSole own next)
          ⊎ ((left : List Write) × (own ≡ w ∷ left) × IsSole left next)
    Takes-IsSole w own [] next nothing h = elim nothing [ ]
    Takes-IsSole w own (goroutine ∷ others) next (inl (rest, e, now)) (inl (same, h)) =
        inr (rest, sym same ∙ e, rw now (inl (refl, h)))
    Takes-IsSole w own (goroutine ∷ others) next (inl (rest, e, now)) (inr (quiet, h)) =
        let (first, left) : IsQuiet (w ∷ rest) = rw e at quiet in
        inl (first, rw now (inr (left, h)))
    Takes-IsSole w own (goroutine ∷ others) next (inr (later, t, now)) (inl (same, h)) =
        let (first, left) = Takes-IsQuiet w others later t h in
        inl (first, rw now (inl (same, left)))
    Takes-IsSole w own (goroutine ∷ others) next (inr (later, t, now)) (inr (quiet, h)) =
        elim (Takes-IsSole w own others later t h) [
          | inl (first, left) ↦ inl (first, rw now (inr (quiet, left)))
          | inr (mine, e, left) ↦ inr (mine, e, rw now (inr (quiet, left)))
        ]

    ended-IsSole :
        (own : List Write) (goroutines : List (List Write))
        → All (λ ws. ws ≡ []) goroutines
        → IsSole own goroutines
        → own ≡ []
    ended-IsSole own [] h nothing = elim nothing [ ]
    ended-IsSole own (goroutine ∷ others) (e, h) (inl (same, k)) = sym same ∙ e
    ended-IsSole own (goroutine ∷ others) (e, h) (inr (quiet, k)) = ended-IsSole own others h k

    Interleaving-seen :
        {goroutines : List (List Write)} {order : List Write} (own : List Write)
        (there : Option (VolumeMetrics F))
        → Interleaving goroutines order
        → IsSole own goroutines
        → seen order there ≡ seen own there
    Interleaving-seen own there (ended goroutines h) sole =
        rw (ended-IsSole own goroutines h sole) refl
    Interleaving-seen own there (takes goroutines next w ws t run) sole =
        elim (Takes-IsSole w own goroutines next t sole) [
          | inl (other, left) ↦ rw other (Interleaving-seen own there run left)
          | inr (mine, e, left) ↦ rw e (Interleaving-seen mine (see w there) run left)
        ]

    -- Where the goroutine of one node alone writes about a PVC, GetAllVolumeMetrics finds for the
    -- PVC what that node reports of the four metrics, with the usage computed, in whatever order
    -- the goroutines of the nodes make their writes.
    pub Interleaving-get :
        (goroutines : List (List Write)) (order : List Write) (families : Dict (List (Sample F)))
        → Interleaving goroutines order
        → IsSole (writes_of lib families) goroutines
        → get (calculate_usage_percentages lib (after_writes lib order new_metrics_cache)) pvc
          ≡ usage_of lib (after_families lib families pvc none)
    Interleaving-get goroutines order families run sole =
        let own = writes_of lib families in
        let empty : get (new_metrics_cache {F = F}) pvc ≡ none = unfold get lookup in refl in
        let found : get (after_writes lib order new_metrics_cache) pvc
            ≡ after_families lib families pvc none =
          get-after_writes order new_metrics_cache
          ∙ Interleaving-seen own _ run sole
          ∙ sym (get-after_writes own new_metrics_cache)
          ∙ ap (λ c. get c pvc) (after_writes-writes_of families new_metrics_cache)
          ∙ get-store_families lib families new_metrics_cache pvc
          ∙ ap (after_families lib families pvc) empty in
        get-calculate_usage_percentages lib (after_writes lib order new_metrics_cache) pvc
        ∙ ap (usage_of lib) found
