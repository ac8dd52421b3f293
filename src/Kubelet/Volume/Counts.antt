-- ===== src/Kubelet/Volume/Counts.antt =====
-- Readings that are numbers from 0 to 2^63 - 1, and their comparisons.
use pvc_chonker.Prelude.{
  ℕ, zero, suc, ◌^◌, ◌<◌, String, some, List, ◌≡◌, ◌≢◌, ◌⊎◌, refl, ◌∙◌, subst, All, [], ◌∷◌, ltb,
  arith, inl, inr, Option-cases,
}
use pvc_chonker.Prelude.Int.{ℤ, pos, negsuc, ltb_ℤ}
use pvc_chonker.Kubelet.Volume.Lines.{latest, latest_or}

-- The reading is a number from 0 to 2^63 - 1, as ParseInt gives for digits.
abbrev pub IsCount : ℤ → Type 0
IsCount value = (n : ℕ) × (value ≡ pos n) × (n < 2 ^ 63)

abbrev pub AreCounts : List (String × ℤ) → Type 0
AreCounts readings = All (λ (r : String × ℤ). IsCount r.1) readings

latest-IsCount :
    (metric : String) (readings : List (String × ℤ)) (value : ℤ)
    → AreCounts readings
    → latest metric readings ≡ some value
    → IsCount value
latest-IsCount metric [] value h e = cc
latest-IsCount metric ((name, first) ∷ readings) value (count, h) e =
    elim (Option-cases (latest metric readings)) [
      | inr (later, one_later) ↦
          latest-IsCount metric readings value h (one_later ∙ (rw one_later at e))
      | inl none_later ↦
          let same : first ≡ value = ground (arith, rw none_later at e) in subst IsCount same count
    ]

pub latest_or-IsCount :
    (metric : String) (readings : List (String × ℤ))
    → AreCounts readings
    → IsCount (latest_or metric readings (pos 0))
latest_or-IsCount metric readings h = elim (Option-cases (latest metric readings)) [
  | inl missing ↦ rw missing (0, refl, omega arith)
  | inr (value, found) ↦ rw found (latest-IsCount metric readings value h found)
]

pub zero-cases : (x : ℤ) → (x ≡ pos 0) ⊎ (x ≢ pos 0)
zero-cases (pos zero) = inl refl
zero-cases (pos (suc n)) = inr (λ e. cc)
zero-cases (negsuc n) = inr (λ e. cc)

pub ltb_ℤ-pos : (m n : ℕ) → ltb_ℤ (pos m) (pos n) ≡ ltb m n
ltb_ℤ-pos m n = ground arith
