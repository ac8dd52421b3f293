-- ===== src/Annotations/Global.antt =====
-- NewGlobalConfig of pkg/annotations/annotations.go: the flags, with a default for each that is
-- missing or does not parse.
pub mod Increase
use pvc_chonker.Prelude.{String, Bool, true, false, Option, none, some, ◌==◌, if◌then◌else◌}
use pvc_chonker.Prelude.Int.{ℤ, pos, leb_ℤ}
use pvc_chonker.Prelude.Text.{trim_space, before_percent}
use pvc_chonker.Libs.{Libs}
use pvc_chonker.Annotations.Types.{
  GlobalConfig, default_threshold, default_inodes_threshold, default_increase, default_cooldown,
  default_min_scale_up,
}

-- err == nil
abbrev pub is_some {ℓ} : {A : Type ℓ} → Option A → Bool
is_some none = false
is_some (some a) = true

module _ {F Q S : Type 0} (lib : Libs F Q S) where
  -- the increase, trimmed, or the default if it is neither a percentage nor a quantity
  validated_increase : String → String
  validated_increase increase =
      let trimmed = trim_space increase in
      let valid : Bool = elim (before_percent trimmed) [
        | some percent_str ↦ is_some (lib.parse_float percent_str)
        | none ↦ is_some (lib.parse_quantity trimmed)
      ] in
      if valid then trimmed else default_increase

  unfoldable pub new_global_config : F → F → String → ℤ → Q → Q → GlobalConfig F Q
  unfolding validated_increase
  new_global_config threshold inodes_threshold increase cooldown min_scale_up max_size = record {
    threshold =
        if lib.le threshold (lib.of_int (pos 0)) then lib.of_int default_threshold else threshold;
    inodes_threshold =
        if lib.le inodes_threshold (lib.of_int (pos 0))
        then lib.of_int default_inodes_threshold
        else inodes_threshold;
    increase = if increase == "" then default_increase else validated_increase increase;
    cooldown = if leb_ℤ cooldown (pos 0) then default_cooldown else cooldown;
    min_scale_up =
        if lib.is_zero min_scale_up then lib.new_quantity default_min_scale_up else min_scale_up;
    max_size = max_size;
  }
