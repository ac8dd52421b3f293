-- ===== src/Annotations/Size/Overflow.antt =====
-- A new size past 2^63 - 1 bytes: the sum wraps around, and the size that is asked for is zero or
-- negative.
use pvc_chonker.Prelude.{ℕ, ◌+◌, ◌-◌, ◌^◌, ◌≤◌, ◌<◌, some, ◌≡◌, arith, ok}
use pvc_chonker.Prelude.Int.{ℤ, pos, negsuc, ◌≤ℤ◌, add64, sub64, mul64, quot64, add64_overflows}
use pvc_chonker.Libs.{Libs}
use pvc_chonker.Annotations.Types.{PvcConfig}
use pvc_chonker.Annotations.Size.{round_up, increase_bytes, calculate_new_size}
use pvc_chonker.Annotations.Size.Bounds.{IsLarger, at_least-eq}

round_up_negative : (m : ℕ) → m < 2 ^ 63 → round_up (negsuc m) ≤ℤ pos 0
unfolding round_up quot64 add64 sub64 mul64
round_up_negative m h = ground arith

-- If the current size is `n` bytes, the larger of the increase and MinScaleUp is `k` bytes, and
-- `n + k` does not fit an int64, then the new size is computed without an error and has no bytes
-- or a negative number of bytes.
pub calculate_new_size_overflows :
    {F Q S : Type 0} (lib : Libs F Q S) (c : PvcConfig F Q) (current_size : Q) (n k : ℕ) (i : ℤ)
    → lib.value current_size ≡ pos n
    → increase_bytes lib c current_size ≡ ok i
    → IsLarger i (lib.value c.min_scale_up) k
    → n < 2 ^ 63
    → k < 2 ^ 63
    → 2 ^ 63 ≤ n + k
    → (z : ℤ) × (z ≤ℤ pos 0)
      × (calculate_new_size lib (some c) current_size ≡ ok (lib.new_quantity z))
unfolding calculate_new_size
calculate_new_size_overflows lib c current_size n k i v e l hn hk past = (
  round_up (negsuc (2 ^ 64 - 1 - (n + k))),
  round_up_negative (2 ^ 64 - 1 - (n + k)) (omega arith),
  rw (e, at_least-eq i (lib.value c.min_scale_up) k l, v, add64_overflows n k hn hk past),
)
