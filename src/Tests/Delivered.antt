-- ===== src/Tests/Delivered.antt =====
-- From the report of a node to the update of a PVC, at concrete inputs: two nodes, of which one
-- reports that the volume apps/data is full, and a cycle over that PVC.
use mathlib.Core.List.Permᴰ
use mathlib.Core.List.{Permᴰ}
use pvc_chonker.Prelude.{Bool, [], ◌∷◌, ok, ◌≡◌, refl, inl, lookup, Any, none, some}
use pvc_chonker.Prelude.Int.{ℤ, pos, sub64}
use pvc_chonker.Prelude.Text.{to_lower}
use pvc_chonker.Annotations.Cooldown.{is_in_cooldown, is_pvc_resizing}
use pvc_chonker.Annotations.Parse.{parse_pvc_annotations}
use pvc_chonker.Annotations.Policies.{resolve_pvc_config}
use pvc_chonker.StorageCache.{new_storage_class_cache}
use pvc_chonker.Kubelet.Cache.{VolumeMetrics, key_from_namespaced_name, with_usage}
use pvc_chonker.Kubelet.Fetch.{parse_metric, is_named}
use pvc_chonker.Kubelet.Fetch.Group.{get_all_in_parallel}
use pvc_chonker.Kubelet.Fetch.Nodes.{usage_of, after_families}
use pvc_chonker.Reconcile.Class.{is_pvc_eligible, class_expandable}
use pvc_chonker.Reconcile.Cycle.{is_managed}
use pvc_chonker.Reconcile.Pvc.{threshold_reached}
use pvc_chonker.Reconcile.Sent.{sent}
use pvc_chonker.Reconcile.Start.{Round, cycle}
use pvc_chonker.Reconcile.Start.Delivered.{sent-cycle_of_report}
use pvc_chonker.Tests.Toy.{toy}
use pvc_chonker.Tests.Expansion.{disk, disk_copy, config, settings, at_time, disk-Sends}
use pvc_chonker.Tests.Volumes.{
  volume, families, requests, collector, text_parser, nodes, stopped, returns, IsSilent-node,
  families_read,
}

abbrev round : Round ℤ ℤ Bool
round = record (at_time (pos 5000)) {
  list_pvcs = ok (disk ∷ []);
  volumes =
      (get_all_in_parallel toy requests collector text_parser stopped (ok nodes) returns (pos 1)).0;
}

-- the volume has no byte available
abbrev full : VolumeMetrics ℤ
full = record {
  capacity_bytes = pos 200;
  available_bytes = pos 0;
  used_bytes = pos 200;
  usage_percent = pos 100;
  inodes_total = pos 10;
  inodes_used = pos 0;
  inodes_free = pos 10;
  inodes_usage_percent = pos 0;
}

full_usage : usage_of toy (after_families toy families volume none) ≡ some full
unfolding lookup parse_metric is_named key_from_namespaced_name with_usage sub64
full_usage = refl

sent-cycle_of_report_example :
    Any (λ p. p ≡ disk_copy) (sent (cycle toy settings round new_storage_class_cache).1)
unfolding resolve_pvc_config parse_pvc_annotations is_pvc_eligible class_expandable is_pvc_resizing
    is_in_cooldown threshold_reached lookup to_lower is_managed
sent-cycle_of_report_example =
    sent-cycle_of_report toy requests collector text_parser stopped settings round
      new_storage_class_cache (disk ∷ []) disk disk_copy config full nodes [] ("node-0" ∷ [])
      "node-1" families returns (pos 1) refl refl (Permᴰ.swap refl refl) refl families_read tt
      (IsSilent-node "node-0" refl, tt) full_usage (inl refl) ((_, refl), tt) (Permᴰ.refl _) refl
      refl refl refl refl refl disk-Sends
