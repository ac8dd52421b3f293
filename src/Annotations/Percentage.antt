-- ===== src/Annotations/Percentage.antt =====
-- parsePercentage of pkg/annotations/annotations.go, and what an accepted percentage satisfies.
use pvc_chonker.Prelude.{
  String, false, ◌||◌, none, some, ◌≡◌, ◌≢◌, ◌↔◌, inl, inr, Option-cases, refl, arith, ◌==◌, eq_iff,
  if◌then◌else◌, Result, ok, err, ◌>>=◌, or_else,
}
use pvc_chonker.Prelude.Int.{pos}
use pvc_chonker.Prelude.Text.{trim_space, before_percent}
use pvc_chonker.Libs.{Libs}
use pvc_chonker.Annotations.Types.{
  PercentError, empty, no_percent_sign, empty_before_percent, not_a_number, out_of_range,
}

module _ {F Q S : Type 0} (lib : Libs F Q S) where
  unfoldable pub parse_percentage : String → Result PercentError F
  parse_percentage s = if s == "" then err empty else do
    percent_str ← or_else (before_percent (trim_space s)) no_percent_sign
    if percent_str == "" then err empty_before_percent else do
      percent ← or_else (lib.parse_float percent_str) not_a_number
      if lib.lt percent (lib.of_int (pos 0)) || lib.lt (lib.of_int (pos 100)) percent
          then err out_of_range
          else ok percent

  -- What the text of an accepted percentage looks like: after trimming, a number and a percent
  -- sign, where the number is neither below 0 nor above 100.
  pub record IsPercentage (s : String) (p : F) : Type 0 where
    pub number : String
    pub trimmed : before_percent (trim_space s) ≡ some number
    pub nonempty : number ≢ ""
    pub parsed : lib.parse_float number ≡ some p
    pub not_below : lib.lt p (lib.of_int (pos 0)) ≡ false
    pub not_above : lib.lt (lib.of_int (pos 100)) p ≡ false

  -- The empty text has no percent sign, so the first test of the code only chooses the error.
  before_percent-trim_space_nil : before_percent (trim_space "") ≡ none
  unfolding trim_space before_percent
  before_percent-trim_space_nil = refl

  parse_percentage_at :
      (s number : String) (q p : F)
      → before_percent (trim_space s) ≡ some number
      → lib.parse_float number ≡ some q
      → parse_percentage s ≡ ok p
      → (number ≢ "")
        × (q ≡ p)
        × (lib.lt p (lib.of_int (pos 0)) ≡ false)
        × (lib.lt (lib.of_int (pos 100)) p ≡ false)
  unfolding parse_percentage
  parse_percentage_at s number q p t f e = ground (arith, eq_iff s "", eq_iff number "")

  -- A text is accepted as a percentage exactly when, trimmed, it is a nonempty number and a
  -- percent sign, and the number is neither below 0 nor above 100.
  pub parse_percentage-eq-ok_iff :
      (s : String) (p : F) → (parse_percentage s ≡ ok p) ↔ IsPercentage s p
  unfolding parse_percentage
  parse_percentage-eq-ok_iff s p = (to, from)
    where
      to : parse_percentage s ≡ ok p → IsPercentage s p
      to e = elim (Option-cases (before_percent (trim_space s))) [
        | inl missing ↦ absurd (ground arith)
        | inr (number, found) ↦ elim (Option-cases (lib.parse_float number)) [
          | inl bad ↦ absurd (ground arith)
          | inr (q, read) ↦
              let (nonempty, same, low, high) = parse_percentage_at s number q p found read e in
              record {
                number = number;
                trimmed = found;
                nonempty = nonempty;
                parsed = rw (← same) read;
                not_below = low;
                not_above = high;
              }
        ]
      ]

      from : IsPercentage s p → parse_percentage s ≡ ok p
      from i = ground (
        arith,
        eq_iff s "",
        eq_iff i.number "",
        i.trimmed,
        i.parsed,
        before_percent-trim_space_nil,
      )
