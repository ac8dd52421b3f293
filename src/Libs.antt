-- ===== src/Libs.antt =====
-- What the program calls and this repository does not hold, as the parameters of the model: the
-- float64 arithmetic and strconv.ParseFloat (`F` is float64), k8s.io/apimachinery's
-- resource.Quantity (`Q`), the texts of times and durations in Go's time package, and label
-- selectors (`S` is metav1.LabelSelector). Their documented laws are records of their own, which
-- a theorem that needs them takes as a hypothesis.
use pvc_chonker.Prelude.{String, Bool, Option, Dict, Ordering, ◌≡◌, ◌↔◌, ◌≢◌}
use pvc_chonker.Prelude.Int.{ℤ}

pub record Libs (F Q S : Type 0) : Type 0 where
  -- a < b and a <= b on float64, both false where one of them is NaN
  pub lt : F → F → Bool
  pub le : F → F → Bool
  -- float64(n) of an int64 or of a constant, and int64(x)
  pub of_int : ℤ → F
  pub to_int : F → ℤ
  pub mul : F → F → F
  pub div : F → F → F
  -- strconv.ParseFloat(s, 64)
  pub parse_float : String → Option F
  -- resource.ParseQuantity, (*Quantity).Value, resource.NewQuantity(n, BinarySI), Quantity{},
  -- (*Quantity).Cmp, (*Quantity).IsZero, (*Quantity).String
  pub parse_quantity : String → Option Q
  pub value : Q → ℤ
  pub new_quantity : ℤ → Q
  pub zero_quantity : Q
  pub cmp : Q → Q → Ordering
  pub is_zero : Q → Bool
  pub quantity_string : Q → String
  -- time.ParseDuration, Duration.String, time.Parse(time.RFC3339, s), Time.Format(time.RFC3339)
  pub parse_duration : String → Option ℤ
  pub duration_string : ℤ → String
  pub parse_time : String → Option ℤ
  pub format_time : ℤ → String
  -- metav1.LabelSelectorAsSelector (none: the selector is invalid) and Selector.Matches
  pub selects : S → Option (Option (Dict String) → Bool)

-- Cmp orders the quantities totally, and NewQuantity has the value it was given.
pub record QuantityLaws {F Q S : Type 0} (lib : Libs F Q S) : Type 0 where
  pub cmp_flip : (a b : Q) → (lib.cmp a b ≡ Ordering.gt) ↔ (lib.cmp b a ≡ Ordering.lt)
  pub cmp_refl : (a : Q) → lib.cmp a a ≡ Ordering.eq
  pub cmp_trans :
      (a b c : Q)
      → lib.cmp a b ≢ Ordering.gt
      → lib.cmp b c ≢ Ordering.gt
      → lib.cmp a c ≢ Ordering.gt
  pub value_new : (n : ℤ) → lib.value (lib.new_quantity n) ≡ n
