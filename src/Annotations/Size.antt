-- ===== src/Annotations/Size.antt =====
-- CalculateNewSize and ExceedsMaxSize of pkg/annotations/annotations.go, on int64 arithmetic that
-- wraps around.
pub mod Bounds
pub mod Overflow
use pvc_chonker.Prelude.{
  String, Bool, false, ◌*◌, Option, none, some, ◌^◌, if◌then◌else◌, Result, ok, err, ◌>>=◌, or_else,
  is_gt,
}
use pvc_chonker.Prelude.Int.{ℤ, pos, ltb_ℤ, add64, sub64, mul64, quot64}
use pvc_chonker.Prelude.Text.{trim_space, before_percent}
use pvc_chonker.Libs.{Libs}
use pvc_chonker.Annotations.Types.{
  PvcConfig, SizeError, config_nil, invalid_percentage, invalid_size,
}

abbrev pub gib_boundary : ℤ
gib_boundary = pos (1024 * 1024 * 1024)

-- ((newBytes + gibBoundary - 1) / gibBoundary) * gibBoundary
unfoldable pub round_up : ℤ → ℤ
round_up new_bytes =
    mul64 (quot64 (sub64 (add64 new_bytes gib_boundary) (pos 1)) (1024 * 1024 * 1024)) gib_boundary

-- the increase below MinScaleUp is raised to it
unfoldable pub at_least : ℤ → ℤ → ℤ
at_least increase_bytes min_scale_up_bytes =
    if ltb_ℤ increase_bytes min_scale_up_bytes then min_scale_up_bytes else increase_bytes

module _ {F Q S : Type 0} (lib : Libs F Q S) where
  -- the increase in bytes: a percentage of the current size, or a quantity
  unfoldable pub increase_bytes : PvcConfig F Q → Q → Result SizeError ℤ
  increase_bytes c current_size =
      let increase = trim_space c.increase in
      elim (before_percent increase) [
        | some percent_str ↦ do
          percent ← or_else (lib.parse_float percent_str) invalid_percentage
          ok (
              lib.to_int (
                lib.div (lib.mul (lib.of_int (lib.value current_size)) percent)
                  (lib.of_int (pos 100))))
        | none ↦ do
          increase_size ← or_else (lib.parse_quantity increase) invalid_size
          ok (lib.value increase_size)
      ]

  unfoldable pub calculate_new_size : Option (PvcConfig F Q) → Q → Result SizeError Q
  calculate_new_size none current_size = err config_nil
  calculate_new_size (some c) current_size = do
    increase ← increase_bytes c current_size
    let scaled = at_least increase (lib.value c.min_scale_up)
    ok (lib.new_quantity (round_up (add64 (lib.value current_size) scaled)))

  unfoldable pub exceeds_max_size : Option (PvcConfig F Q) → Q → Bool
  exceeds_max_size none new_size = false
  exceeds_max_size (some c) new_size =
      if lib.is_zero c.max_size then false else is_gt (lib.cmp new_size c.max_size)
