-- ===== src/Reconcile/Start/Delivered.antt =====
-- From the report of a node to the update of a PVC: the kubelet's metrics and a cycle together.
use pvc_chonker.Prelude.{
  String, true, false, Option, none, some, List, [], ◌∷◌, ◌++◌, ok, Dict, ◌≡◌, ◌∙◌, refl, inl, inr,
  All, Any, Any-Permᴰ, Any-append_left, Any-append_right, Any-select, All-select, select, All-Permᴰ,
}
use mathlib.Core.List.{Permᴰ}
use pvc_chonker.Kube.{Pvc, NamespacedName}
use pvc_chonker.Libs.{Libs}
use pvc_chonker.Annotations.Types.{PvcConfig}
use pvc_chonker.Annotations.Cooldown.{is_in_cooldown, is_pvc_resizing}
use pvc_chonker.Annotations.Policies.{resolve_pvc_config}
use pvc_chonker.StorageCache.{StorageClassCache, new_storage_class_cache}
use pvc_chonker.Kubelet.Cache.{VolumeMetrics, MetricsCache, get}
use pvc_chonker.Kubelet.Collector.{MetricsCollector, Requests, RequestError}
use pvc_chonker.Kubelet.Fetch.{Sample, node_families}
use pvc_chonker.Kubelet.Fetch.Group.{Return, get_all_in_parallel}
use pvc_chonker.Kubelet.Fetch.Group.Outcome.{nodes_of, get_all_in_parallel-get_all_volume_metrics}
use pvc_chonker.Kubelet.Fetch.Nodes.{IsSilent, usage_of, after_families, get-get_all_volume_metrics}
use pvc_chonker.Reconcile.Types.{Env, namespaced_name}
use pvc_chonker.Reconcile.Class.{is_pvc_eligible}
use pvc_chonker.Reconcile.Class.Coherent.{
  direct, is_storage_class_expandable-IsCoherent, new_storage_class_cache-IsCoherent,
}
use pvc_chonker.Reconcile.Pvc.{threshold_reached, reconcile_pvc}
use pvc_chonker.Reconcile.Sent.{sent, Sends}
use pvc_chonker.Reconcile.Safety.{sent-reconcile_pvc_iff}
use pvc_chonker.Reconcile.Cycle.{is_managed}
use pvc_chonker.Reconcile.Cycle.Order.{HasRequests, sent_alone, sent_in_turn-sent_alone}
use pvc_chonker.Reconcile.Start.{Reconciler, Round, env_of, cycle}
use pvc_chonker.Reconcile.Start.Rounds.{sent-cycle}

module _ {F Q S : Type 0} (env : Env F Q S) (volumes : MetricsCache F) where
  -- A PVC among those of a cycle sends what it would send alone.
  Any-sent_alone :
      (pvc copy : Pvc Q) (pvcs : List (Pvc Q))
      → sent (reconcile_pvc env volumes new_storage_class_cache pvc).1 ≡ copy ∷ []
      → Any (λ p. p ≡ pvc) pvcs
      → Any (λ p. p ≡ copy) (sent_alone env volumes pvcs)
  unfolding sent_alone
  Any-sent_alone pvc copy [] e there = elim there [ ]
  Any-sent_alone pvc copy (p ∷ pvcs) e (inl same) =
      Any-append_left (λ q. q ≡ copy) _ (sent_alone env volumes pvcs)
        (let own : sent (reconcile_pvc env volumes new_storage_class_cache p).1 ≡ copy ∷ [] =
            rw same e in
          rw own (inl refl))
  Any-sent_alone pvc copy (p ∷ pvcs) e (inr there) =
      Any-append_right (λ q. q ≡ copy) _ (sent_alone env volumes pvcs)
        (Any-sent_alone pvc copy pvcs e there)

module _ {F Q S R : Type 0} (lib : Libs F Q S) (requests : Requests R) (mc : MetricsCollector)
    (parser : String → Option (Dict (List (Sample F)))) (stopped : RequestError) where
  -- What one node alone reports about a PVC is found by the error group of the nodes.
  get-get_all_in_parallel :
      (nn : NamespacedName) (nodes before after : List String) (node : String)
      (families : Dict (List (Sample F))) (returns : List Return) (seconds : F)
      → Permᴰ nodes (nodes_of returns)
      → nodes_of returns ≡ before ++ node ∷ after
      → node_families lib requests mc parser node ≡ ok families
      → All (IsSilent lib requests mc parser nn) before
      → All (IsSilent lib requests mc parser nn) after
      → (cache : MetricsCache F) × ((get_all_in_parallel lib requests mc parser stopped
            (ok nodes)
            returns
            seconds).0
          ≡ ok cache)
        × (get cache nn ≡ usage_of lib (after_families lib families nn none))
  get-get_all_in_parallel nn nodes before after node families returns seconds order placed read h
        k =
      let (cache, fetched, found) =
        get-get_all_volume_metrics lib requests mc parser nn before after node families read h k in
      let sequential =
        get_all_in_parallel-get_all_volume_metrics lib requests mc parser stopped nodes returns
          seconds order in
      (cache, (rw placed at sequential) ∙ fetched, found)

  module _ (r : Reconciler F Q) (round : Round F Q S) where
    abbrev env : Env F Q S
    env = env_of lib r round

    sent-alone :
        (volumes : MetricsCache F) (pvc copy : Pvc Q) (config : PvcConfig F Q)
        (vm : VolumeMetrics F)
        → resolve_pvc_config lib round.list_policies pvc r.global_config ≡ ok config
        → is_pvc_eligible pvc ≡ true
        → direct env pvc.storage_class_name ≡ true
        → is_pvc_resizing (some pvc) ≡ false
        → is_in_cooldown (some config) round.now ≡ false
        → get volumes (namespaced_name pvc) ≡ some vm
        → threshold_reached env config vm ≡ true
        → Sends env pvc config copy
        → sent (reconcile_pvc env volumes new_storage_class_cache pvc).1 ≡ copy ∷ []
    sent-alone volumes pvc copy config vm resolved eligible allows quiet rested found reached
          sends =
        (sent-reconcile_pvc_iff env volumes new_storage_class_cache pvc copy).1.1 (record {
          config = config;
          resolved = resolved;
          eligible = eligible;
          expandable =
              (is_storage_class_expandable-IsCoherent env new_storage_class_cache
                pvc.storage_class_name (new_storage_class_cache-IsCoherent env)).1
              ∙ allows;
          due = record {
            quiet = quiet;
            rested = rested;
            usage = vm;
            found = found;
            reached = reached;
          };
          sends = sends;
        })

    -- From a node's report to the update. A cycle lists the PVCs and fetches the metrics of all
    -- nodes at once; every node can be read, and one of them alone reports about a PVC. If the PVC
    -- is among those listed, has a configuration, is eligible, has a storage class that the API
    -- server says can be expanded, is neither resizing nor in its cooldown, what the node reports
    -- reaches a threshold, the new size is computed and within the maximum, and no dry run is on,
    -- then the cycle asks the API server for the update of this PVC that ExpandPVC makes of it,
    -- whatever the order of the nodes and of the PVCs and whatever the cache of storage classes
    -- held before. Every listed PVC has a map of requests, so none of the goroutines panics before.
    pub sent-cycle_of_report :
        (cache : StorageClassCache) (pvcs : List (Pvc Q)) (pvc copy : Pvc Q)
        (config : PvcConfig F Q) (vm : VolumeMetrics F) (nodes before after : List String)
        (node : String) (families : Dict (List (Sample F))) (returns : List Return) (seconds : F)
        → round.list_pvcs ≡ ok pvcs
        → round.volumes
          ≡ (get_all_in_parallel lib requests mc parser stopped (ok nodes) returns seconds).0
        → Permᴰ nodes (nodes_of returns)
        → nodes_of returns ≡ before ++ node ∷ after
        → node_families lib requests mc parser node ≡ ok families
        → All (IsSilent lib requests mc parser (namespaced_name pvc)) before
        → All (IsSilent lib requests mc parser (namespaced_name pvc)) after
        → usage_of lib (after_families lib families (namespaced_name pvc) none) ≡ some vm
        → Any (λ p. p ≡ pvc) pvcs
        → All HasRequests pvcs
        → Permᴰ (select (is_managed env) pvcs) (round.schedule (select (is_managed env) pvcs))
        → resolve_pvc_config lib round.list_policies pvc r.global_config ≡ ok config
        → is_pvc_eligible pvc ≡ true
        → direct env pvc.storage_class_name ≡ true
        → is_pvc_resizing (some pvc) ≡ false
        → is_in_cooldown (some config) round.now ≡ false
        → threshold_reached env config vm ≡ true
        → Sends env pvc config copy
        → Any (λ p. p ≡ copy) (sent (cycle lib r round cache).1)
    unfolding is_managed
    sent-cycle_of_report cache pvcs pvc copy config vm nodes before after node families returns
          seconds listed measured order placed read silent_before silent_after usage among requests
          scheduled resolved eligible allows quiet rested reached sends =
        let (volumes, fetched, found) =
          get-get_all_in_parallel (namespaced_name pvc) nodes before after node families returns
            seconds order placed read silent_before silent_after in
        let managed : is_managed env pvc ≡ true = rw resolved refl in
        let alone =
          sent-alone volumes pvc copy config vm resolved eligible allows quiet rested
            (found ∙ usage) reached sends in
        let in_turn = sent_in_turn-sent_alone env volumes _ (
          All-Permᴰ HasRequests scheduled
            (All-select (is_managed env) HasRequests pvcs requests)) in
        rw (sent-cycle lib r round cache, listed, measured ∙ fetched, in_turn)
          (Any-sent_alone env volumes pvc copy _ alone (
            Any-Permᴰ (λ p. p ≡ pvc) scheduled
              (Any-select (is_managed env) pvc pvcs managed among)))
