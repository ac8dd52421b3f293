-- ===== src/Kubelet/Cache.antt =====
-- MetricsCache of pkg/kubelet/cache.go and VolumeMetrics of pkg/kubelet/metrics.go. The cache holds
-- no nil entry, since only the setters below fill it. The mutex makes each operation one step.
pub mod Laws
use pvc_chonker.Prelude.{
  String, Bool, Option, none, some, List, [], ◌∷◌, Dict, lookup, insert, if◌then◌else◌, get_or,
}
use pvc_chonker.Prelude.Int.{ℤ, pos, ltb_ℤ, sub64}
use pvc_chonker.Kube.{NamespacedName}
use pvc_chonker.Libs.{Libs}
use Prim.Native.String.{◌++◌}

pub record VolumeMetrics (F : Type 0) : Type 0 where
  pub capacity_bytes : ℤ
  pub available_bytes : ℤ
  pub used_bytes : ℤ
  pub usage_percent : F
  pub inodes_total : ℤ
  pub inodes_used : ℤ
  pub inodes_free : ℤ
  pub inodes_usage_percent : F

pub record MetricsCache (F : Type 0) : Type 0 where
  pub entries : Dict (VolumeMetrics F)

unfoldable pub key_from_namespaced_name : NamespacedName → String
key_from_namespaced_name nn = nn.namespace ++ "/" ++ nn.name

-- The four fields that a sample of the kubelet sets.
pub data Field : Type 0 where
  capacity available inodes inodes_used : Field

-- cache.data[key].CapacityBytes = value, and so on
abbrev pub assign : {F : Type 0} → Field → ℤ → VolumeMetrics F → VolumeMetrics F
assign capacity value vm = record vm { capacity_bytes = value }
assign available value vm = record vm { available_bytes = value }
assign inodes value vm = record vm { inodes_total = value }
assign inodes_used value vm = record vm { inodes_used = value }

module _ {F Q S : Type 0} (lib : Libs F Q S) where
  -- &VolumeMetrics{}
  abbrev pub zero_metrics : VolumeMetrics F
  zero_metrics = record {
    capacity_bytes = pos 0;
    available_bytes = pos 0;
    used_bytes = pos 0;
    usage_percent = lib.of_int (pos 0);
    inodes_total = pos 0;
    inodes_used = pos 0;
    inodes_free = pos 0;
    inodes_usage_percent = lib.of_int (pos 0);
  }

  -- setCapacity, setAvailable, setInodesTotal and setInodesUsed, which differ in the field alone
  unfoldable pub set_field : Field → MetricsCache F → NamespacedName → ℤ → MetricsCache F
  unfolding key_from_namespaced_name
  set_field field cache pvc_name value =
      let key = key_from_namespaced_name pvc_name in
      record {
        entries =
            insert key (assign field value (get_or (lookup key cache.entries) zero_metrics))
              cache.entries;
      }

  -- one round of the loop of calculateUsagePercentages
  unfoldable pub with_usage : VolumeMetrics F → VolumeMetrics F
  with_usage vm =
      let used = sub64 vm.capacity_bytes vm.available_bytes in
      let stored =
        if ltb_ℤ (pos 0) vm.capacity_bytes
        then record vm {
          used_bytes = used;
          usage_percent =
              lib.mul (lib.div (lib.of_int used) (lib.of_int vm.capacity_bytes))
                (lib.of_int (pos 100));
        }
        else vm in
      if ltb_ℤ (pos 0) vm.inodes_total
      then record stored {
        inodes_free = sub64 vm.inodes_total vm.inodes_used;
        inodes_usage_percent =
            lib.mul (lib.div (lib.of_int vm.inodes_used) (lib.of_int vm.inodes_total))
              (lib.of_int (pos 100));
      }
      else stored

  unfoldable pub usages : Dict (VolumeMetrics F) → Dict (VolumeMetrics F)
  usages [] = []
  usages ((key, vm) ∷ entries) = (key, with_usage vm) ∷ usages entries

  unfoldable pub calculate_usage_percentages : MetricsCache F → MetricsCache F
  unfolding usages
  calculate_usage_percentages cache = record { entries = usages cache.entries }

abbrev pub new_metrics_cache : {F : Type 0} → MetricsCache F
new_metrics_cache = record { entries = [] }

unfoldable pub get : {F : Type 0} → MetricsCache F → NamespacedName → Option (VolumeMetrics F)
unfolding key_from_namespaced_name
get cache nn = lookup (key_from_namespaced_name nn) cache.entries

-- the loop of GetAll, which copies each entry; no order is promised, and the keys are distinct
unfoldable pub copies : {F : Type 0} → Dict (VolumeMetrics F) → Dict (VolumeMetrics F)
copies [] = []
copies ((key, vm) ∷ entries) = insert key vm (copies entries)

unfoldable pub get_all : {F : Type 0} → MetricsCache F → Dict (VolumeMetrics F)
unfolding copies
get_all cache = copies cache.entries
