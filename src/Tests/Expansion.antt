-- ===== src/Tests/Expansion.antt =====
-- A reconciliation that expands a PVC, at a concrete input.
use pvc_chonker.Prelude.{
  ℕ, ◌+◌, ◌*◌, String, Bool, true, false, none, some, Dict, [], ◌∷◌, ◌≡◌, ◌↔◌, ◌⊎◌, refl, ok,
  insert, lookup, ◌≢◌, Ordering, inl, arith,
}
use pvc_chonker.Prelude.Int.{ℤ, pos, add64, sub64, mul64, quot64}
use pvc_chonker.Prelude.Text.{trim_space, before_percent, to_lower}
use pvc_chonker.Kube.{Pvc, StorageClass}
use pvc_chonker.Annotations.Types.{PvcConfig, annotation_enabled, annotation_last_expansion}
use pvc_chonker.Annotations.Parse.{parse_pvc_annotations}
use pvc_chonker.Annotations.Size.{
  calculate_new_size, increase_bytes, at_least, round_up, exceeds_max_size,
}
use pvc_chonker.Annotations.Cooldown.{is_in_cooldown, is_pvc_resizing, update_last_expansion}
use pvc_chonker.Annotations.Policies.{resolve_pvc_config, is_switched_off}
use pvc_chonker.StorageCache.{new_storage_class_cache, get}
use pvc_chonker.Kubelet.Cache
use pvc_chonker.Kubelet.Cache.{VolumeMetrics, MetricsCache, key_from_namespaced_name}
use pvc_chonker.Reconcile.Types.{Env, storage_of}
use pvc_chonker.Reconcile.Class.{is_pvc_eligible, is_storage_class_expandable, class_expandable}
use pvc_chonker.Reconcile.Expand.{resized}
use pvc_chonker.Reconcile.Pvc.{threshold_reached, reconcile_pvc}
use pvc_chonker.Reconcile.Pvc.Effects.{reported}
use pvc_chonker.Reconcile.Sent.{sent, Sends}
use pvc_chonker.Reconcile.Safety.{IsExpansion, sent-reconcile_pvc_iff}
use pvc_chonker.Reconcile.Sized.{storage_of-IsRoundedUp}
use pvc_chonker.Annotations.Size.Bounds.{IsRoundedUp}
use pvc_chonker.Reconcile.Reported.{reported-reconcile_pvc}
use pvc_chonker.Reconcile.Start.{Reconciler, Round, env_of}
use pvc_chonker.Reconcile.Rested.{sent-reconcile_pvc_of_copied}
use pvc_chonker.Reconcile.SwitchedOff.{sent-reconcile_pvc_of_is_switched_off}
use pvc_chonker.Tests.Toy.{gib, toy, toy_global, toy_laws}

abbrev pub fast : StorageClass
fast = record { allow_volume_expansion = some true; parameters = some (("fsType", "xfs") ∷ []) }

-- a cluster with the storage class `fast` for every name, whose API server accepts each update
abbrev env_with : Bool → Env ℤ ℤ Bool
env_with dry_run = record {
  lib = toy;
  global = toy_global;
  dry_run = dry_run;
  list_policies = λ namespace. ok [];
  get_storage_class = λ name. ok fast;
  update = λ pvc. none;
  now = pos 5000;
  stamp = pos 3;
}

abbrev pub env : Env ℤ ℤ Bool
env = env_with false

-- a PVC of 10 GiB with these annotations
abbrev disk_with : Dict String → ℕ → Pvc ℤ
disk_with annotations requested = record {
  name = "data";
  namespace = "apps";
  labels = none;
  annotations = some annotations;
  requests = some (("storage", pos (requested * gib)) ∷ []);
  volume_mode = none;
  storage_class_name = some "fast";
  phase = "Bound";
  capacity = some (("storage", pos (10 * gib)) ∷ []);
  conditions = [];
}

abbrev pub disk : Pvc ℤ
disk = disk_with ((annotation_enabled, "true") ∷ []) 10

abbrev pub disk_copy : Pvc ℤ
disk_copy = disk_with ((annotation_enabled, "true") ∷ (annotation_last_expansion, "|||") ∷ []) 11

-- 90% of the space and 10% of the inodes in use
abbrev usage : VolumeMetrics ℤ
usage = record {
  capacity_bytes = pos (10 * gib);
  available_bytes = pos gib;
  used_bytes = pos (9 * gib);
  usage_percent = pos 90;
  inodes_total = pos 1000;
  inodes_used = pos 100;
  inodes_free = pos 900;
  inodes_usage_percent = pos 10;
}

abbrev pub volumes : MetricsCache ℤ
volumes = record { entries = ("apps/data", usage) ∷ [] }

abbrev pub config : PvcConfig ℤ ℤ
config = record {
  enabled = true;
  threshold = pos 80;
  inodes_threshold = pos 80;
  increase = "10%";
  max_size = pos 0;
  cooldown = pos 900;
  min_scale_up = pos gib;
  last_expansion = none;
}

pub disk-Sends : Sends env disk config disk_copy
unfolding calculate_new_size increase_bytes at_least round_up exceeds_max_size resized insert lookup
    trim_space before_percent update_last_expansion add64 sub64 mul64 quot64
disk-Sends = record {
  new_size = pos (11 * gib);
  sized = refl;
  within = refl;
  wet = refl;
  copied = refl;
}

disk-IsExpansion : IsExpansion env volumes new_storage_class_cache disk disk_copy
unfolding resolve_pvc_config parse_pvc_annotations is_pvc_eligible is_storage_class_expandable
    class_expandable new_storage_class_cache get is_pvc_resizing is_in_cooldown threshold_reached
    calculate_new_size increase_bytes at_least round_up exceeds_max_size resized insert lookup
    trim_space before_percent to_lower update_last_expansion Cache.get add64 sub64 mul64 quot64
disk-IsExpansion = record {
  config = config;
  resolved = refl;
  eligible = refl;
  expandable = refl;
  due = record { quiet = refl; rested = refl; usage = usage; found = refl; reached = refl };
  sends = disk-Sends;
}

sent-reconcile_pvc_iff_example :
    ((sent (reconcile_pvc env volumes new_storage_class_cache disk).1 ≡ [])
      ⊎ ((p : Pvc ℤ) × (sent (reconcile_pvc env volumes new_storage_class_cache disk).1 ≡ p ∷ [])))
    × ((sent (reconcile_pvc env volumes new_storage_class_cache disk).1 ≡ disk_copy ∷ [])
        ↔ IsExpansion env volumes new_storage_class_cache disk disk_copy)
sent-reconcile_pvc_iff_example =
    sent-reconcile_pvc_iff env volumes new_storage_class_cache disk disk_copy

-- this PVC is expanded indeed
expands : sent (reconcile_pvc env volumes new_storage_class_cache disk).1 ≡ disk_copy ∷ []
expands =
    (sent-reconcile_pvc_iff env volumes new_storage_class_cache disk disk_copy).1.1 disk-IsExpansion

disk_config : resolve_pvc_config toy (λ namespace. ok []) disk toy_global ≡ ok config
unfolding resolve_pvc_config parse_pvc_annotations lookup to_lower
disk_config = refl

storage_of-IsRoundedUp_example :
    ((r : ℕ) × IsRoundedUp (10 * gib + gib) r × (storage_of toy disk_copy.requests ≡ pos r))
    × ((toy.is_zero (pos 0) ≡ true)
        ⊎ (toy.cmp (storage_of toy disk_copy.requests) (pos 0) ≢ Ordering.gt))
unfolding lookup increase_bytes trim_space before_percent
storage_of-IsRoundedUp_example =
    storage_of-IsRoundedUp env toy_laws volumes new_storage_class_cache disk disk_copy config
      (10 * gib) gib (pos gib) disk_config expands refl refl
      (record { holds_increase = omega arith; holds_minimum = omega arith; one_of_them = inl refl })
      (omega arith)

reported-reconcile_pvc_example :
    (calculate_new_size toy (some config) (storage_of toy disk.capacity)
      ≡ ok (storage_of toy disk_copy.requests))
    × (reported (reconcile_pvc env volumes new_storage_class_cache disk).1
        ≡ (pos (10 * gib), pos (10 * gib)) ∷ [])
unfolding lookup
reported-reconcile_pvc_example =
    reported-reconcile_pvc env volumes new_storage_class_cache disk disk_copy config disk_config
      expands refl

abbrev off : Pvc ℤ
off = disk_with ((annotation_enabled, "false") ∷ []) 10

abbrev off_copy : Pvc ℤ
off_copy = disk_with ((annotation_enabled, "false") ∷ (annotation_last_expansion, "|||") ∷ []) 11

sent-reconcile_pvc_of_is_switched_off_example :
    sent (reconcile_pvc env volumes new_storage_class_cache off).1 ≡ off_copy ∷ []
unfolding is_switched_off is_pvc_eligible is_storage_class_expandable class_expandable
    new_storage_class_cache get is_pvc_resizing is_in_cooldown threshold_reached calculate_new_size
    increase_bytes at_least round_up exceeds_max_size resized insert lookup trim_space
    before_percent to_lower update_last_expansion Cache.get add64 sub64 mul64 quot64
sent-reconcile_pvc_of_is_switched_off_example =
    sent-reconcile_pvc_of_is_switched_off env volumes new_storage_class_cache off off_copy refl refl
      refl (record { quiet = refl; rested = refl; usage = usage; found = refl; reached = refl })
      (record { new_size = pos (11 * gib); sized = refl; within = refl; wet = refl; copied = refl })

-- the settings of a controller, and its rounds at these times of the clock
abbrev pub settings : Reconciler ℤ ℤ
settings = record {
  global_config = toy_global;
  watch_interval = pos 60;
  dry_run = false;
  max_parallel = pos 4;
}

abbrev pub at_time : ℤ → Round ℤ ℤ Bool
at_time now = record {
  list_policies = λ namespace. ok [];
  get_storage_class = λ name. ok fast;
  update = λ pvc. none;
  now = now;
  stamp = pos 3;
  list_pvcs = ok [];
  volumes = ok volumes;
  schedule = λ pvcs. pvcs;
  response = pos 0;
  seconds = pos 0;
  finished = pos 0;
}

sent-reconcile_pvc_of_copied_example :
    sent
      (reconcile_pvc
        (env_of toy settings (at_time (pos 902)))
        volumes
        new_storage_class_cache
        disk_copy).1
    ≡ []
unfolding parse_pvc_annotations lookup to_lower
sent-reconcile_pvc_of_copied_example =
    sent-reconcile_pvc_of_copied toy settings (at_time (pos 5000)) (at_time (pos 902)) volumes
      volumes new_storage_class_cache new_storage_class_cache disk disk_copy disk_copy config
      (pos 3) refl expands refl (omega arith) (omega arith) refl (omega arith)
