-- ===== src/StorageCache.antt =====
-- pkg/cache/storage.go: what is known of the storage classes during one cycle. The read-write mutex
-- makes each operation one step.
use pvc_chonker.Prelude.{String, Bool, Option, [], Dict, lookup, insert}

pub record StorageClassCache : Type 0 where
  pub cache : Dict Bool
  pub fs_types : Dict String

unfoldable pub new_storage_class_cache : StorageClassCache
new_storage_class_cache = record { cache = []; fs_types = [] }

unfoldable pub get : StorageClassCache → String → Option Bool
get c name = lookup name c.cache

unfoldable pub set : StorageClassCache → String → Bool → StorageClassCache
set c name expandable = record c { cache = insert name expandable c.cache }

unfoldable pub get_fs_type : StorageClassCache → String → Option String
get_fs_type c name = lookup name c.fs_types

unfoldable pub set_fs_type : StorageClassCache → String → String → StorageClassCache
set_fs_type c name fs_type = record c { fs_types = insert name fs_type c.fs_types }

unfoldable pub clear : StorageClassCache → StorageClassCache
clear c = record { cache = []; fs_types = [] }
