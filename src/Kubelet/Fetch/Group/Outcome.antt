-- ===== src/Kubelet/Fetch/Group/Outcome.antt =====
-- When GetAllVolumeMetrics succeeds, whatever the order in which its goroutines return.
use pvc_chonker.Prelude.{
  String, Option, none, some, List, [], ◌∷◌, Dict, ok, err, map, ◌≡◌, ◌≢◌, ◌⊎◌, >>=-eq-ok,
  >>=-eq-err, ◌↔◌, refl, sym, ap, ◌∙◌, arith, All, Any, All-Permᴰ, Any-Permᴰ, inl, inr,
  Result-cases,
}
use mathlib.Core.List.Permᴰ
use mathlib.Core.List.{Permᴰ}
use pvc_chonker.Libs.{Libs}
use pvc_chonker.Kubelet.Cache.{MetricsCache, new_metrics_cache, calculate_usage_percentages}
use pvc_chonker.Kubelet.Collector.{MetricsCollector, Requests, RequestError}
use pvc_chonker.Kubelet.Fetch.{
  get_all_volume_metrics, fetch_all_node_metrics, Sample, FetchError, no_nodes, fetch_node_metrics,
  fetch_nodes,
}
use pvc_chonker.Kubelet.Fetch.Group.{
  Return, ErrGroup, fetch_in_group, on_return, all_returned, wait, fetch_in_parallel,
  fetch_all_in_parallel, get_all_in_parallel,
}
use pvc_chonker.Kubelet.Fetch.Readable.{
  HasFailed, IsReadable, fetch_nodes-IsReadable, fetch_nodes-ok, fetch_nodes-failed,
}

abbrev pub nodes_of : List Return → List String
nodes_of returns = map (λ r. r.node) returns

module _ {F Q S R : Type 0} (lib : Libs F Q S) (requests : Requests R) (mc : MetricsCollector)
    (text_to_metric_families : String → Option (Dict (List (Sample F))))
    (stopped : RequestError) where
  -- once an error is kept, it stays
  on_return-kept :
      (group : ErrGroup F) (r : Return) (e : FetchError)
      → group.kept ≡ some e
      → (on_return lib requests mc text_to_metric_families stopped group r).kept ≡ some e
  unfolding on_return
  on_return-kept group r e k = ground arith

  all_returned-kept :
      (group : ErrGroup F) (rs : List Return) (e : FetchError)
      → group.kept ≡ some e
      → (all_returned lib requests mc text_to_metric_families stopped group rs).kept ≡ some e
  unfolding all_returned
  all_returned-kept group [] e k = k
  all_returned-kept group (r ∷ rs) e k =
      all_returned-kept (on_return lib requests mc text_to_metric_families stopped group r) rs e
        (on_return-kept group r e k)

  wait-kept :
      (group : ErrGroup F) (rs : List Return) (e : FetchError)
      → group.kept ≡ some e
      → wait lib requests mc text_to_metric_families stopped
          (all_returned lib requests mc text_to_metric_families stopped group rs)
        ≡ err e
  unfolding wait
  wait-kept group rs e k = ground (arith, all_returned-kept group rs e k)

  -- What the group returns is what a loop over the nodes, in the order of the returns, gives that
  -- stops at the first error.
  fetch_in_parallel-fetch_nodes :
      (returns : List Return) (cache : MetricsCache F)
      → fetch_in_parallel lib requests mc text_to_metric_families stopped returns cache
        ≡ fetch_nodes lib requests mc text_to_metric_families (nodes_of returns) cache
  unfolding fetch_in_parallel fetch_nodes all_returned wait on_return fetch_in_group
  fetch_in_parallel-fetch_nodes [] cache = refl
  fetch_in_parallel-fetch_nodes (r ∷ rs) cache =
      elim (Result-cases
        (fetch_node_metrics lib requests mc text_to_metric_families r.node cache)) [
          | inr (stored, read) ↦
              let start : ErrGroup F = record { kept = none; cache = cache } in
              let stores : on_return lib requests mc text_to_metric_families stopped start r
                  ≡ record { kept = none; cache = stored } =
                ground arith in
              ap
                (λ (group : ErrGroup F).
                  wait lib requests mc text_to_metric_families stopped
                    (all_returned lib requests mc text_to_metric_families stopped group rs))
                stores
              ∙ (fetch_in_parallel-fetch_nodes rs stored ∙ rw read refl)
          | inl (e, failed) ↦
              let start : ErrGroup F = record { kept = none; cache = cache } in
              let keeps : (on_return lib requests mc text_to_metric_families stopped start r).kept
                  ≡ some e =
                ground arith in
              wait-kept (on_return lib requests mc text_to_metric_families stopped start r) rs e
                keeps
              ∙ ground arith
        ]

  -- The same, for the nodes in any order.
  fetch_in_parallel_iff :
      (nodes : List String) (returns : List Return) (cache : MetricsCache F)
      → Permᴰ nodes (nodes_of returns)
      → (((after : MetricsCache F) × (fetch_in_parallel lib requests mc text_to_metric_families
                stopped returns cache
              ≡ ok after))
          ↔ All (IsReadable lib requests mc text_to_metric_families) nodes)
        × ((e : FetchError)
            → fetch_in_parallel lib requests mc text_to_metric_families stopped returns cache
              ≡ err e
            → Any (HasFailed lib requests mc text_to_metric_families e) nodes)
  fetch_in_parallel_iff nodes returns cache order = ((to, from), failed)
    where
      same :
          fetch_in_parallel lib requests mc text_to_metric_families stopped returns cache
          ≡ fetch_nodes lib requests mc text_to_metric_families (nodes_of returns) cache
      same = fetch_in_parallel-fetch_nodes returns cache

      to :
          (after : MetricsCache F) × (fetch_in_parallel lib requests mc text_to_metric_families
                stopped returns cache
              ≡ ok after)
          → All (IsReadable lib requests mc text_to_metric_families) nodes
      to (after, e) =
          All-Permᴰ (IsReadable lib requests mc text_to_metric_families) (Permᴰ.symm order) (
            fetch_nodes-IsReadable lib requests mc text_to_metric_families (nodes_of returns) cache
              after (sym same ∙ e))

      from :
          All (IsReadable lib requests mc text_to_metric_families) nodes
          → (after : MetricsCache F) × (fetch_in_parallel lib requests mc text_to_metric_families
                stopped returns cache
              ≡ ok after)
      from h =
          let (after, e) =
            fetch_nodes-ok lib requests mc text_to_metric_families (nodes_of returns) cache
              (All-Permᴰ (IsReadable lib requests mc text_to_metric_families) order h) in
          (after, same ∙ e)

      failed :
          (e : FetchError)
          → fetch_in_parallel lib requests mc text_to_metric_families stopped returns cache ≡ err e
          → Any (HasFailed lib requests mc text_to_metric_families e) nodes
      failed e h =
          Any-Permᴰ (HasFailed lib requests mc text_to_metric_families e) (Permᴰ.symm order) (
            fetch_nodes-failed lib requests mc text_to_metric_families (nodes_of returns) cache e
              (sym same ∙ h))

  -- GetAllVolumeMetrics over a list of nodes, in whatever order the goroutines of the nodes return
  -- and whichever requests a cancellation cuts off: it succeeds exactly if there is a node and
  -- every node can be read, and its error is that there is no node, or one that a node has of its
  -- own accord.
  pub get_all_in_parallel_iff :
      (nodes : List String) (returns : List Return) (seconds : F)
      → Permᴰ nodes (nodes_of returns)
      → (((after : MetricsCache F) × ((get_all_in_parallel lib requests mc text_to_metric_families
                stopped
                (ok nodes)
                returns
                seconds).0
              ≡ ok after))
          ↔ ((nodes ≢ []) × All (IsReadable lib requests mc text_to_metric_families) nodes))
        × ((e : FetchError)
            → (get_all_in_parallel lib requests mc text_to_metric_families stopped
                (ok nodes)
                returns
                seconds).0
              ≡ err e
            → ((nodes ≡ []) × (e ≡ no_nodes))
              ⊎ Any (HasFailed lib requests mc text_to_metric_families e) nodes)
  unfolding get_all_in_parallel fetch_all_in_parallel
  get_all_in_parallel_iff [] returns seconds order =
      ((λ (after, e). cc, λ (ne, h). absurd (ne refl)), λ e h. inl (refl, ground arith))
  get_all_in_parallel_iff (node ∷ nodes) returns seconds order =
      let ((to, from), failed) =
        fetch_in_parallel_iff (node ∷ nodes) returns new_metrics_cache order in
      (
        (
          λ (after, e).
              let (cache, done, rest) =
                >>=-eq-ok
                  (fetch_in_parallel lib requests mc text_to_metric_families stopped returns
                    new_metrics_cache)
                  _ e in
              (λ ne. cc, to (cache, done)),
          λ (ne, h).
              let (cache, done) = from h in (calculate_usage_percentages lib cache, rw done refl),
        ),
        λ e h. inr (
            failed e (
              >>=-eq-err
                (fetch_in_parallel lib requests mc text_to_metric_families stopped returns
                  new_metrics_cache)
                (calculate_usage_percentages lib) h)),
      )

  by_nodes :
      (nodes order : List String) (returns : List Return) (seconds : F)
      → nodes_of returns ≡ order
      → Permᴰ nodes order
      → (get_all_in_parallel lib requests mc text_to_metric_families stopped
          (ok nodes)
          returns
          seconds).0
        ≡ get_all_volume_metrics lib requests mc text_to_metric_families (ok order)
  unfolding get_all_in_parallel fetch_all_in_parallel get_all_volume_metrics fetch_all_node_metrics
  by_nodes [] [] returns seconds e p = refl
  by_nodes [] (first ∷ rest) returns seconds e p =
      absurd (Any-Permᴰ (λ node. node ≡ first) (Permᴰ.symm p) (inl refl))
  by_nodes (node ∷ nodes) [] returns seconds e p = absurd (Any-Permᴰ (λ n. n ≡ node) p (inl refl))
  by_nodes (node ∷ nodes) (first ∷ rest) returns seconds e p =
      rw (fetch_in_parallel-fetch_nodes returns new_metrics_cache, e) refl

  -- With its goroutines in any order, GetAllVolumeMetrics gives what it gives with the nodes one
  -- after the other, in the order in which their goroutines return.
  pub get_all_in_parallel-get_all_volume_metrics :
      (nodes : List String) (returns : List Return) (seconds : F)
      → Permᴰ nodes (nodes_of returns)
      → (get_all_in_parallel lib requests mc text_to_metric_families stopped
          (ok nodes)
          returns
          seconds).0
        ≡ get_all_volume_metrics lib requests mc text_to_metric_families (ok (nodes_of returns))
  get_all_in_parallel-get_all_volume_metrics nodes returns seconds p =
      by_nodes nodes (nodes_of returns) returns seconds refl p
