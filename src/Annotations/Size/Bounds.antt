-- ===== src/Annotations/Size/Bounds.antt =====
-- A new size without overflow: the least multiple of one GiB that holds the current size and the
-- increase.
use pvc_chonker.Prelude.{ℕ, ◌+◌, ◌-◌, ◌*◌, ◌/◌, ◌%◌, ◌^◌, ◌≤◌, ◌<◌, some, ◌≡◌, arith, ok, ◌⊎◌}
use pvc_chonker.Prelude.Int.{ℤ, pos, ◌≤ℤ◌, quot64, add64_fits, sub64_fits, mul64_fits}
use pvc_chonker.Libs.{Libs}
use pvc_chonker.Annotations.Types.{PvcConfig}
use pvc_chonker.Annotations.Size.{round_up, at_least, increase_bytes, calculate_new_size}

abbrev pub gib : ℕ
gib = 1_073_741_824

-- `r` is the least multiple of one GiB that is at least `n`.
pub record IsRoundedUp (n r : ℕ) : Type 0 where
  pub whole : r % gib ≡ 0
  pub enough : n ≤ r
  pub least : r < n + gib

abbrev rounded : ℕ → ℕ
rounded n = (n + gib - 1) / gib * gib

rounded-IsRoundedUp : (n : ℕ) → IsRoundedUp n (rounded n)
rounded-IsRoundedUp n = record { whole = omega arith; enough = omega arith; least = omega arith }

pub round_up-eq : (n : ℕ) → n + gib ≤ 2 ^ 63 - 1 → round_up (pos n) ≡ pos (rounded n)
unfolding round_up quot64
round_up-eq n h = rw (
  add64_fits n gib (omega arith),
  sub64_fits (n + gib) 1 (omega arith) (omega arith),
  mul64_fits ((n + gib - 1) / gib) gib (omega arith),
)

-- `k` is the larger of the increase and MinScaleUp.
pub record IsLarger (i m : ℤ) (k : ℕ) : Type 0 where
  pub holds_increase : i ≤ℤ pos k
  pub holds_minimum : m ≤ℤ pos k
  pub one_of_them : (pos k ≡ i) ⊎ (pos k ≡ m)

pub at_least-eq : (i m : ℤ) (k : ℕ) → IsLarger i m k → at_least i m ≡ pos k
unfolding at_least
at_least-eq i m k h = ground arith

-- If the current size is `n` bytes, the increase reads as `i` bytes, `k` is the larger of `i` and
-- MinScaleUp, and the sum leaves one GiB below 2^63, then the new size is the least multiple of
-- one GiB that is at least `n + k` bytes.
pub calculate_new_size-IsRoundedUp :
    {F Q S : Type 0} (lib : Libs F Q S) (c : PvcConfig F Q) (current_size : Q) (n k : ℕ) (i : ℤ)
    → lib.value current_size ≡ pos n
    → increase_bytes lib c current_size ≡ ok i
    → IsLarger i (lib.value c.min_scale_up) k
    → n + k + gib ≤ 2 ^ 63 - 1
    → (r : ℕ) × IsRoundedUp (n + k) r
      × (calculate_new_size lib (some c) current_size ≡ ok (lib.new_quantity (pos r)))
unfolding calculate_new_size
calculate_new_size-IsRoundedUp lib c current_size n k i v e l fits = (
  rounded (n + k),
  rounded-IsRoundedUp (n + k),
  rw (
    e,
    at_least-eq i (lib.value c.min_scale_up) k l,
    v,
    add64_fits n k (omega arith),
    round_up-eq (n + k) fits,
  ),
)
