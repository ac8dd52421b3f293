-- ===== src/Tests/Parallel.antt =====
-- Two goroutines of one cycle, at concrete inputs.
use pvc_chonker.Prelude.{List, [], ◌∷◌, ◌≡◌, ◌⊎◌, refl, lookup}
use pvc_chonker.Prelude.Int.{ℤ, pos}
use pvc_chonker.Prelude.Text.{to_lower}
use pvc_chonker.Kube.{Pvc}
use pvc_chonker.Annotations.Parse.{parse_pvc_annotations}
use pvc_chonker.Annotations.Policies.{resolve_pvc_config}
use pvc_chonker.StorageCache.{new_storage_class_cache, clear}
use pvc_chonker.Reconcile.Class.{is_pvc_eligible, class_expandable, get_filesystem_type}
use pvc_chonker.Reconcile.Parallel.{System, Step, Steps, launch, parallelism, storing, answered}
use pvc_chonker.Reconcile.Parallel.Invariant.{Inv, Steps-Inv, clear-IsKnown}
use pvc_chonker.Reconcile.Parallel.Ends.{Continues, Steps-ends}
use pvc_chonker.Reconcile.Parallel.Progress.{IsEnd, Steps-done}
use pvc_chonker.Reconcile.Parallel.Race.{IsOfClass, get_filesystem_type_before_set_fs_type}
use pvc_chonker.Tests.Expansion.{env, volumes, disk, config, fast}

abbrev disks : List (Pvc ℤ)
disks = disk ∷ disk ∷ []

abbrev first : System ℤ ℤ
first = launch (clear new_storage_class_cache) 2 disks

disk-IsOfClass : IsOfClass env volumes "fast" fast disk config
unfolding resolve_pvc_config parse_pvc_annotations is_pvc_eligible lookup to_lower
disk-IsOfClass = record { resolved = refl; eligible = refl; named = refl }

get_filesystem_type_before_set_fs_type_example :
    (t : System ℤ ℤ) × Steps env volumes first 5 t
    × (t.workers
        ≡ record { pvc = disk; phase = storing config "fast" fast }
          ∷ record { pvc = disk; phase = answered config (class_expandable fast) [] }
          ∷ [])
    × (get_filesystem_type t.shared.cache disk.storage_class_name ≡ "ext4")
get_filesystem_type_before_set_fs_type_example =
    get_filesystem_type_before_set_fs_type env volumes "fast" fast new_storage_class_cache disk disk
      config config 0 disk-IsOfClass disk-IsOfClass refl

-- the state that this run reaches, in which both goroutines hold a place
both : System ℤ ℤ
both =
    (get_filesystem_type_before_set_fs_type env volumes "fast" fast new_storage_class_cache disk
      disk config config 0 disk-IsOfClass disk-IsOfClass refl).0

Steps-both : Steps env volumes first 5 both
unfolding both
Steps-both =
    (get_filesystem_type_before_set_fs_type env volumes "fast" fast new_storage_class_cache disk
      disk config config 0 disk-IsOfClass disk-IsOfClass refl).1

Steps-Inv_example : Inv env volumes 2 disks both
Steps-Inv_example =
    Steps-Inv env volumes (clear new_storage_class_cache) 2 disks
      (clear-IsKnown env volumes new_storage_class_cache) Steps-both

Steps-ends_example :
    Continues env volumes
      (clear new_storage_class_cache)
      (pos 2)
      disks
      (clear-IsKnown env volumes new_storage_class_cache)
      5
      both
unfolding parallelism
Steps-ends_example =
    Steps-ends env volumes (clear new_storage_class_cache) (pos 2) disks
      (clear-IsKnown env volumes new_storage_class_cache) Steps-both

Steps-done_example : ((u : System ℤ ℤ) × Step env volumes both u) ⊎ IsEnd env volumes disks both
unfolding parallelism
Steps-done_example =
    Steps-done env volumes (clear new_storage_class_cache) (pos 2) disks
      (clear-IsKnown env volumes new_storage_class_cache) Steps-both
