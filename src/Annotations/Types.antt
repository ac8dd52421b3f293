-- ===== src/Annotations/Types.antt =====
-- The configurations and the errors of pkg/annotations/annotations.go.
use pvc_chonker.Prelude.{String, Bool, Option, ◌*◌}
use pvc_chonker.Prelude.Int.{ℤ, pos}

abbrev pub annotation_enabled : String
annotation_enabled = "pvc-chonker.io/enabled"

abbrev pub annotation_threshold : String
annotation_threshold = "pvc-chonker.io/threshold"

abbrev pub annotation_inodes_threshold : String
annotation_inodes_threshold = "pvc-chonker.io/inodes-threshold"

abbrev pub annotation_increase : String
annotation_increase = "pvc-chonker.io/increase"

abbrev pub annotation_max_size : String
annotation_max_size = "pvc-chonker.io/max-size"

abbrev pub annotation_cooldown : String
annotation_cooldown = "pvc-chonker.io/cooldown"

abbrev pub annotation_min_scale_up : String
annotation_min_scale_up = "pvc-chonker.io/min-scale-up"

abbrev pub annotation_last_expansion : String
annotation_last_expansion = "pvc-chonker.io/last-expansion"

-- The defaults: 80.0 for both thresholds, 15 minutes, and 1 GiB in bytes.
abbrev pub default_threshold : ℤ
default_threshold = pos 80

abbrev pub default_inodes_threshold : ℤ
default_inodes_threshold = pos 80

abbrev pub default_increase : String
default_increase = "10%"

abbrev pub default_cooldown : ℤ
default_cooldown = pos (15 * 60 * 1_000_000_000)

abbrev pub default_min_scale_up : ℤ
default_min_scale_up = pos (1 * 1024 * 1024 * 1024)

pub record GlobalConfig (F Q : Type 0) : Type 0 where
  pub threshold : F
  pub inodes_threshold : F
  pub increase : String
  pub cooldown : ℤ
  pub min_scale_up : Q
  pub max_size : Q

pub record PvcConfig (F Q : Type 0) : Type 0 where
  pub enabled : Bool
  pub threshold : F
  pub inodes_threshold : F
  pub increase : String
  pub max_size : Q
  pub cooldown : ℤ
  pub min_scale_up : Q
  pub last_expansion : Option ℤ

-- The errors of parsePercentage.
pub data PercentError : Type 0 where
  empty : PercentError
  no_percent_sign : PercentError
  empty_before_percent : PercentError
  not_a_number : PercentError
  out_of_range : PercentError

-- The errors of ParsePVCAnnotations.
pub data ConfigError : Type 0 where
  pvc_nil : ConfigError
  global_nil : ConfigError
  no_annotations : ConfigError
  not_enabled : ConfigError
  disabled : ConfigError
  invalid_threshold : PercentError → ConfigError
  invalid_inodes_threshold : PercentError → ConfigError
  invalid_max_size : ConfigError
  invalid_cooldown : ConfigError
  invalid_min_scale_up : ConfigError
  invalid_last_expansion : ConfigError

-- The errors of CalculateNewSize.
pub data SizeError : Type 0 where
  config_nil : SizeError
  invalid_percentage : SizeError
  invalid_size : SizeError
