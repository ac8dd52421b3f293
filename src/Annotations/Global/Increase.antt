-- ===== src/Annotations/Global/Increase.antt =====
-- The increase of the global configuration can always be applied.
use pvc_chonker.Prelude.{
  String, none, some, ◌≡◌, ◌==◌, arith, ok, refl, inl, inr, Option-cases, Bool-cases, ◌⊎◌,
}
use pvc_chonker.Prelude.Int.{ℤ, pos, add64}
use pvc_chonker.Prelude.Text.{trim_space, before_percent}
use pvc_chonker.Prelude.Text.Trim.{trim_space_idem}
use pvc_chonker.Libs.{Libs}
use pvc_chonker.Annotations.Types.{PvcConfig, default_increase}
use pvc_chonker.Annotations.Size.{round_up, at_least, increase_bytes, calculate_new_size}
use pvc_chonker.Annotations.Global.{validated_increase, new_global_config}

module _ {F Q S : Type 0} (lib : Libs F Q S) where
  -- A text that CalculateNewSize can read: trimmed, it is a number and a percent sign, or a
  -- quantity.
  abbrev IsReadable : String → Type 0
  IsReadable s =
      ((t : String) × (x : F) × (before_percent (trim_space s) ≡ some t)
        × (lib.parse_float t ≡ some x))
      ⊎ ((q : Q) × (before_percent (trim_space s) ≡ none)
          × (lib.parse_quantity (trim_space s) ≡ some q))

  increase_bytes_of_IsReadable :
      (c : PvcConfig F Q) (current_size : Q)
      → IsReadable c.increase
      → (i : ℤ) × (increase_bytes lib c current_size ≡ ok i)
  unfolding increase_bytes
  increase_bytes_of_IsReadable c current_size (inl (t, x, e, p)) = (
    lib.to_int (lib.div (lib.mul (lib.of_int (lib.value current_size)) x) (lib.of_int (pos 100))),
    ground arith,
  )
  increase_bytes_of_IsReadable c current_size (inr (q, e, p)) = (lib.value q, ground arith)

  IsReadable-trim_space : (s : String) → IsReadable s → IsReadable (trim_space s)
  IsReadable-trim_space s h = rw trim_space_idem h

  default-IsReadable : {x : F} → lib.parse_float "10" ≡ some x → IsReadable default_increase
  unfolding trim_space before_percent
  default-IsReadable {x} p = inl ("10", x, refl, p)

  validated_increase-IsReadable :
      {x : F} (s : String) → lib.parse_float "10" ≡ some x → IsReadable (validated_increase lib s)
  unfolding validated_increase
  validated_increase-IsReadable s p = elim (Option-cases (before_percent (trim_space s))) [
    | inl plain ↦ elim (Option-cases (lib.parse_quantity (trim_space s))) [
      | inl bad ↦ rw (plain, bad) (default-IsReadable p)
      | inr (q, good) ↦ rw (plain, good) (IsReadable-trim_space s (inr (q, plain, good)))
    ]
    | inr (t, percent) ↦ elim (Option-cases (lib.parse_float t)) [
      | inl bad ↦ rw (percent, bad) (default-IsReadable p)
      | inr (y, good) ↦ rw (percent, good) (IsReadable-trim_space s (inl (t, y, percent, good)))
    ]
  ]

  new_global_config-IsReadable :
      {x : F} (threshold inodes_threshold : F) (increase : String) (cooldown : ℤ)
      (min_scale_up max_size : Q)
      → lib.parse_float "10" ≡ some x
      → IsReadable
          (new_global_config lib threshold inodes_threshold increase cooldown min_scale_up
            max_size).increase
  unfolding new_global_config
  new_global_config-IsReadable threshold inodes increase cooldown min max p =
      elim (Bool-cases (increase == "")) [
        | inl missing ↦ rw missing (default-IsReadable p)
        | inr given ↦ rw given (validated_increase-IsReadable increase p)
      ]

  -- Whatever the flags, if "10" parses as a number then a configuration that takes its increase
  -- from the global configuration gives a new size for every current size, never an error.
  pub new_global_config-calculate_new_size :
      {x : F} (threshold inodes_threshold : F) (increase : String) (cooldown : ℤ)
      (min_scale_up max_size : Q) (c : PvcConfig F Q) (current_size : Q)
      → lib.parse_float "10" ≡ some x
      → c.increase
        ≡ (new_global_config lib threshold inodes_threshold increase cooldown min_scale_up
            max_size).increase
      → (q : Q) × (calculate_new_size lib (some c) current_size ≡ ok q)
  unfolding calculate_new_size
  new_global_config-calculate_new_size threshold inodes increase cooldown min max c current p same =
      let readable : IsReadable c.increase =
        rw same (new_global_config-IsReadable threshold inodes increase cooldown min max p) in
      let (i, e) = increase_bytes_of_IsReadable c current readable in
      (
        lib.new_quantity
            (round_up (add64 (lib.value current) (at_least i (lib.value c.min_scale_up)))),
        rw e,
      )
