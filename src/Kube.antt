-- ===== src/Kube.antt =====
-- The Kubernetes objects that the program reads and writes, with the fields that it uses: the core
-- objects of k8s.io/api, and the program's own resources of api/v1alpha1/pvcpolicy_types.go and
-- api/v1alpha1/pvcgroup_types.go. A pointer or a map that may be nil is an `Option`. `Q` stands for
-- resource.Quantity and `S` for metav1.LabelSelector. Times and durations are nanoseconds.
use pvc_chonker.Prelude.{String, Bool, Option, List, Dict}
use pvc_chonker.Prelude.Int.{ℤ}

-- An error of the API server's client: "not found", or any other.
pub data ApiError : Type 0 where
  not_found : ApiError
  failed : String → ApiError

-- client.IgnoreNotFound(err) == nil
abbrev pub is_not_found : ApiError → Bool
is_not_found not_found = Bool.true
is_not_found (failed _) = Bool.false

pub record NamespacedName : Type 0 where
  pub namespace : String
  pub name : String

pub record Condition : Type 0 where
  pub type : String
  pub status : String

-- corev1.PersistentVolumeClaim: metadata, then spec (requests to storage_class_name), then status
pub record Pvc (Q : Type 0) : Type 0 where
  pub name : String
  pub namespace : String
  pub labels : Option (Dict String)
  pub annotations : Option (Dict String)
  pub requests : Option (Dict Q)
  pub volume_mode : Option String
  pub storage_class_name : Option String
  pub phase : String
  pub capacity : Option (Dict Q)
  pub conditions : List Condition

-- storagev1.StorageClass
pub record StorageClass : Type 0 where
  pub allow_volume_expansion : Option Bool
  pub parameters : Option (Dict String)

-- PVCPolicyTemplate
pub record PolicyTemplate (Q : Type 0) : Type 0 where
  pub enabled : Option Bool
  pub threshold : Option String
  pub inodes_threshold : Option String
  pub increase : Option String
  pub max_size : Option Q
  pub min_scale_up : Option Q
  pub cooldown : Option ℤ

-- PVCPolicyStatus
pub record PolicyStatus : Type 0 where
  pub matched_pvcs : ℤ
  pub last_updated : Option ℤ

-- PVCPolicy, with the fields of its PVCPolicySpec
pub record Policy (Q S : Type 0) : Type 0 where
  pub name : String
  pub namespace : String
  pub selector : S
  pub template : PolicyTemplate Q
  pub status : PolicyStatus

-- PVCGroupTemplate
pub record GroupTemplate (Q : Type 0) : Type 0 where
  pub enabled : Option Bool
  pub threshold : Option String
  pub inodes_threshold : Option String
  pub increase : Option String
  pub max_size : Option Q
  pub min_scale_up : Option Q
  pub cooldown : Option ℤ

-- PVCGroupStatus
pub record GroupStatus (Q : Type 0) : Type 0 where
  pub member_count : ℤ
  pub current_size : Option Q
  pub last_expansion : Option ℤ
  pub last_updated : Option ℤ

-- PVCGroup, with the field of its PVCGroupSpec
pub record Group (Q : Type 0) : Type 0 where
  pub name : String
  pub namespace : String
  pub template : GroupTemplate Q
  pub status : GroupStatus Q
