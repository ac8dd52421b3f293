-- ===== src/Tests/Toy.antt =====
-- Concrete functions for the libraries: whole numbers for float64 and for quantities, decimal texts
-- for numbers, quantities and durations, and strokes for times. A selector is a Boolean, `true` for
-- one that selects everything and `false` for an invalid one.
use Prim.Native.Char.{code}
use Prim.Native.String.{[], ◌∷◌}
use pvc_chonker.Prelude.{
  ℕ, zero, suc, ◌+◌, ◌-◌, ◌*◌, ◌/◌, String, Bool, true, ◌&&◌, Option, none, some, Ordering, leb,
  if◌then◌else◌, ◌==◌, refl, arith,
}
use Prim.Native.Nat.{compare}
use pvc_chonker.Prelude.Int.{ℤ, pos, pos_part, neg_part, ltb_ℤ, leb_ℤ}
use pvc_chonker.Libs.{Libs, QuantityLaws}
use pvc_chonker.Annotations.Types.{GlobalConfig}

abbrev pub gib : ℕ
gib = 1024 * 1024 * 1024

abbrev digits : String → ℕ → Option ℤ
digits [] n = some (pos n)
digits (c ∷ s) n =
    let rest = digits s (10 * n + (code c - b'0')) in
    if leb b'0' (code c) && leb (code c) b'9' then rest else none

abbrev pub number : String → Option ℤ
number s = if s == "" then none else digits s 0

abbrev strokes : ℕ → String
strokes zero = []
strokes (suc n) = "|" ∷ strokes n

abbrev tally : String → ℕ
tally [] = 0
tally (c ∷ s) = suc (tally s)

abbrev compare_ℤ : ℤ → ℤ → Ordering
compare_ℤ a b = compare (pos_part a + neg_part b) (pos_part b + neg_part a)

abbrev pub toy : Libs ℤ ℤ Bool
toy = record {
  lt = ltb_ℤ;
  le = leb_ℤ;
  of_int = λ n. n;
  to_int = λ x. x;
  mul = λ a b. pos (pos_part a * pos_part b);
  div = λ a b. pos (pos_part a / pos_part b);
  parse_float = number;
  parse_quantity = number;
  value = λ q. q;
  new_quantity = λ n. n;
  zero_quantity = pos 0;
  cmp = compare_ℤ;
  is_zero = λ q. leb (pos_part q + neg_part q) 0;
  quantity_string = λ q. strokes (pos_part q);
  parse_duration = number;
  duration_string = λ d. strokes (pos_part d);
  parse_time = λ s. some (pos (tally s));
  format_time = λ t. strokes (pos_part t);
  selects = λ selector. if selector then some (λ labels. true) else none;
}

pub toy_laws : QuantityLaws toy
toy_laws = record {
  cmp_flip = λ a b. ground arith;
  cmp_refl = λ a. ground arith;
  cmp_trans = λ a b c h k. ground arith;
  value_new = λ n. refl;
}

abbrev pub toy_global : GlobalConfig ℤ ℤ
toy_global = record {
  threshold = pos 80;
  inodes_threshold = pos 80;
  increase = "10%";
  cooldown = pos 900;
  min_scale_up = pos gib;
  max_size = pos 0;
}
