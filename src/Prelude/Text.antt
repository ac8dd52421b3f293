-- ===== src/Prelude/Text.antt =====
-- The functions of Go's `strings` package that the program calls, over texts as sequences of code
-- points.
pub mod Trim
use Prim.Native.Nat.{ℕ, zero, suc, ◌-◌}
use Prim.Native.Char.{Char, code}
use Prim.Native.String.{String, [], ◌∷◌}
use mathlib.Core.Path.{◌≡◌, refl}
use mathlib.Core.Bool.{Bool, ◌&&◌, ◌||◌}
use mathlib.Core.Option.{Option, none, some}
use text.Mathlib.Text.{◌==◌, starts_with}
use pvc_chonker.Prelude.Tests.{leb, eqb, if◌then◌else◌}

-- unicode.IsSpace: the code points with the property White_Space
unfoldable pub is_space : ℕ → Bool
is_space c =
    (leb 9 c && leb c 13)
    || eqb c 32
    || eqb c 0x85
    || eqb c 0xa0
    || eqb c 0x1680
    || (leb 0x2000 c && leb c 0x200a)
    || eqb c 0x2028
    || eqb c 0x2029
    || eqb c 0x202f
    || eqb c 0x205f
    || eqb c 0x3000

-- strings.TrimLeft(s, White_Space)
unfoldable pub trim_left : String → String
unfolding is_space
trim_left [] = []
trim_left (c ∷ s) = let rest = trim_left s in if is_space (code c) then rest else c ∷ s

-- strings.TrimRight(s, White_Space)
unfoldable pub trim_right : String → String
unfolding is_space
trim_right [] = []
trim_right (c ∷ s) =
    let rest = trim_right s in if rest == [] && is_space (code c) then [] else c ∷ rest

-- strings.TrimSpace
unfoldable pub trim_space : String → String
unfolding trim_left trim_right
trim_space s = trim_right (trim_left s)

-- strings.TrimSuffix(s, "%") where strings.HasSuffix(s, "%") holds, and `none` where it does not
unfoldable pub before_percent : String → Option String
before_percent [] = none
before_percent (c ∷ s) = elim (before_percent s) [
  | some t ↦ some (c ∷ t)
  | none ↦ if s == [] && eqb (code c) b'%' then some [] else none
]

char_at_or : Char → String → ℕ → Char
char_at_or d [] n = d
char_at_or d (c ∷ s) zero = c
char_at_or d (c ∷ s) (suc n) = char_at_or d s n

-- unicode.ToLower where its value is ASCII: the ASCII capitals, and the two other code points
-- (U+0130 and U+212A) that it takes to ASCII letters. It leaves every other code point, which no
-- comparison of the program with an ASCII text can tell apart.
unfoldable pub lower : Char → Char
unfolding char_at_or
lower c =
    if leb b'A' (code c) && leb (code c) b'Z'
    then char_at_or c "abcdefghijklmnopqrstuvwxyz" (code c - b'A')
    else if eqb (code c) 0x130
    then char_at_or c "i" 0
    else if eqb (code c) 0x212a
    then char_at_or c "k" 0
    else c

-- strings.ToLower
unfoldable pub to_lower : String → String
unfolding lower
to_lower [] = []
to_lower (c ∷ s) = lower c ∷ to_lower s

-- strings.Contains
unfoldable pub contains : String → String → Bool
contains [] t = starts_with [] t
contains (c ∷ s) t = starts_with (c ∷ s) t || contains s t

trims : trim_space "  80% \n" ≡ "80%"
unfolding trim_space
trims = refl

lowers : to_lower "TrUe" ≡ "true"
unfolding to_lower
lowers = refl

suffix : before_percent "12.5%" ≡ some "12.5"
unfolding before_percent
suffix = refl

no_suffix : before_percent "5%x" ≡ none
unfolding before_percent
no_suffix = refl
