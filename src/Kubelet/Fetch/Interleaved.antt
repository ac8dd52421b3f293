-- ===== src/Kubelet/Fetch/Interleaved.antt =====
-- The goroutines of the nodes, interleaved in any order at each write to the cache. A goroutine is
-- the list of the writes that it has still to make.
pub mod AnyOrder
use pvc_chonker.Prelude.{
  String, Bool, true, false, Option, none, some, List, [], ◌∷◌, ◌++◌, Dict, lookup, ◌≡◌, ◌⊎◌, All,
  if◌then◌else◌,
}
use pvc_chonker.Prelude.Int.{ℤ}
use pvc_chonker.Kube.{NamespacedName}
use pvc_chonker.Libs.{Libs}
use pvc_chonker.Kubelet.Cache.{
  MetricsCache, Field, capacity, available, inodes, inodes_used, set_field,
}
use pvc_chonker.Kubelet.Fetch.{Sample, parse_metric, is_named}

-- A call of one of the four setters of the cache.
pub record Write : Type 0 where
  pub field : Field
  pub name : NamespacedName
  pub value : ℤ

module _ {F Q S : Type 0} (lib : Libs F Q S) where
  -- the calls that the loop over one family makes
  unfoldable pub writes_of_samples : Field → List (Sample F) → List Write
  writes_of_samples field [] = []
  writes_of_samples field (sample ∷ samples) =
      let (name, value) = parse_metric lib sample in
      let rest = writes_of_samples field samples in
      if is_named lib name
      then record { field = field; name = name; value = value } ∷ rest
      else rest

  unfoldable pub writes_of_family : Field → String → Dict (List (Sample F)) → List Write
  writes_of_family field family families = elim (lookup family families) [
    | none ↦ []
    | some samples ↦ writes_of_samples field samples
  ]

  -- the calls of fetchNodeMetrics, in order
  unfoldable pub writes_of : Dict (List (Sample F)) → List Write
  writes_of families =
      writes_of_family capacity "kubelet_volume_stats_capacity_bytes" families
      ++ (writes_of_family available "kubelet_volume_stats_available_bytes" families
          ++ (writes_of_family inodes "kubelet_volume_stats_inodes" families
              ++ writes_of_family inodes_used "kubelet_volume_stats_inodes_used" families))

  -- the cache after these calls
  unfoldable pub after_writes : List Write → MetricsCache F → MetricsCache F
  after_writes [] cache = cache
  after_writes (w ∷ ws) cache = after_writes ws (set_field lib w.field cache w.name w.value)

-- One of the goroutines makes its next write.
abbrev pub Takes : Write → List (List Write) → List (List Write) → Type 0
Takes w [] next = ⊥
Takes w (goroutine ∷ others) next =
    ((rest : List Write) × (goroutine ≡ w ∷ rest) × (next ≡ rest ∷ others))
    ⊎ ((later : List (List Write)) × Takes w others later × (next ≡ goroutine ∷ later))

-- The goroutines run to their ends, with their writes in this order.
pub data Interleaving : List (List Write) → List Write → Type 0 where
  ended :
      (goroutines : List (List Write)) → All (λ ws. ws ≡ []) goroutines → Interleaving goroutines []
  takes :
      (goroutines next : List (List Write)) (w : Write) (ws : List Write)
      → Takes w goroutines next
      → Interleaving next ws
      → Interleaving goroutines (w ∷ ws)
