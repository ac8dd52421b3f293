-- ===== src/Prelude/Text/Trim.antt =====
-- Trimming a trimmed text changes nothing.
use Prim.Native.Char.{code}
use Prim.Native.String.{String, [], ◌∷◌}
use mathlib.Core.Path.{◌≡◌, refl, ◌∙◌, ap}
use mathlib.Core.Bool.{false, ◌&&◌}
use mathlib.Core.Logic.{inl, inr}
use text.Mathlib.Text.{◌==◌}
use pvc_chonker.Prelude.Tests.{Bool-cases}
use pvc_chonker.Prelude.Text.{is_space, trim_left, trim_right, trim_space}

-- A text is left as it is by trim_left: it is empty, or begins with no space.
abbrev IsTrimmed : String → Type 0
IsTrimmed [] = Unit
IsTrimmed (c ∷ s) = is_space (code c) ≡ false

trim_left-IsTrimmed : (s : String) → IsTrimmed (trim_left s)
unfolding trim_left
trim_left-IsTrimmed [] = tt
trim_left-IsTrimmed (c ∷ s) = elim (Bool-cases (is_space (code c))) [
  | inl space ↦ rw space (trim_left-IsTrimmed s)
  | inr other ↦ rw other other
]

trim_left_of_IsTrimmed : (s : String) → IsTrimmed s → trim_left s ≡ s
unfolding trim_left
trim_left_of_IsTrimmed [] h = refl
trim_left_of_IsTrimmed (c ∷ s) h = rw h

trim_right-IsTrimmed : (s : String) → IsTrimmed s → IsTrimmed (trim_right s)
unfolding trim_right
trim_right-IsTrimmed [] h = tt
trim_right-IsTrimmed (c ∷ s) h = elim (Bool-cases (trim_right s == [])) [
  | inl nil ↦ rw (nil, h) h
  | inr more ↦ rw more h
]

trim_right_idem : (s : String) → trim_right (trim_right s) ≡ trim_right s
unfolding trim_right
trim_right_idem [] = refl
trim_right_idem (c ∷ s) = elim (Bool-cases (trim_right s == [] && is_space (code c))) [
  | inl all_space ↦ rw all_space refl
  | inr kept ↦ rw (kept, trim_right_idem s, kept) refl
]

pub trim_space_idem : (s : String) → trim_space (trim_space s) ≡ trim_space s
unfolding trim_space
trim_space_idem s =
    ap trim_right (
      trim_left_of_IsTrimmed (trim_right (trim_left s))
        (trim_right-IsTrimmed (trim_left s) (trim_left-IsTrimmed s)))
    ∙ trim_right_idem (trim_left s)
