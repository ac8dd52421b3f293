-- ===== src/Group/Members/Largest.antt =====
-- calculateLargestSize is the largest request, for an order on quantities.
use pvc_chonker.Prelude.{
  List, [], ◌∷◌, ◌≡◌, ◌≢◌, ◌⊎◌, inl, inr, refl, arith, if◌then◌else◌, is_gt, Ordering, Bool-cases,
  All, Any,
}
use pvc_chonker.Kube.{Pvc}
use pvc_chonker.Libs.{Libs, QuantityLaws}
use pvc_chonker.Group.Members.{request, largest_from, calculate_largest_size}

module _ {F Q S : Type 0} (lib : Libs F Q S) (laws : QuantityLaws lib) where
  -- a is at most b
  abbrev pub IsAtMost : Q → Q → Type 0
  IsAtMost a b = lib.cmp a b ≢ Ordering.gt

  -- one round of the loop
  next : Q → Q → Q
  next size largest = if is_gt (lib.cmp size largest) then size else largest

  next-IsAtMost :
      (size largest : Q) → IsAtMost size (next size largest) × IsAtMost largest (next size largest)
  unfolding next
  next-IsAtMost size largest =
      ground (arith, laws.cmp_refl size, laws.cmp_refl largest, laws.cmp_flip size largest)

  pub largest_from-IsAtMost :
      (largest : Q) (pvcs : List (Pvc Q))
      → IsAtMost largest (largest_from lib largest pvcs)
        × All (λ pvc. IsAtMost (request lib pvc) (largest_from lib largest pvcs)) pvcs
  unfolding largest_from next
  largest_from-IsAtMost largest [] = (ground (arith, laws.cmp_refl largest), tt)
  largest_from-IsAtMost largest (pvc ∷ pvcs) =
      let (size_up, largest_up) = next-IsAtMost (request lib pvc) largest in
      let (up, others) = largest_from-IsAtMost (next (request lib pvc) largest) pvcs in
      (
        laws.cmp_trans largest _ _ largest_up up,
        (laws.cmp_trans (request lib pvc) _ _ size_up up, others),
      )

  -- r is the size that the loop began with, or a request
  abbrev IsRequest : Q → Q → List (Pvc Q) → Type 0
  IsRequest r largest pvcs = (r ≡ largest) ⊎ Any (λ pvc. r ≡ request lib pvc) pvcs

  largest_from-member :
      (largest : Q) (pvcs : List (Pvc Q)) (r : Q)
      → r ≡ largest_from lib largest pvcs
      → IsRequest r largest pvcs
  unfolding largest_from
  largest_from-member largest [] r e = inl e
  largest_from-member largest (pvc ∷ pvcs) r e =
      elim (Bool-cases (is_gt (lib.cmp (request lib pvc) largest))) [
        | inl larger ↦ inr (largest_from-member (request lib pvc) pvcs r (cc larger))
        | inr smaller ↦ elim (largest_from-member largest pvcs r (cc smaller)) [
          | inl same ↦ inl same
          | inr later ↦ inr (inr later)
        ]
      ]

  -- For a total order on quantities, every PVC's request is at most the size that
  -- calculateLargestSize returns, and that size is the zero quantity or the request of one of them.
  pub calculate_largest_size-IsLargest :
      (pvcs : List (Pvc Q))
      → All (λ pvc. IsAtMost (request lib pvc) (calculate_largest_size lib pvcs)) pvcs
        × ((calculate_largest_size lib pvcs ≡ lib.zero_quantity)
            ⊎ Any (λ pvc. calculate_largest_size lib pvcs ≡ request lib pvc) pvcs)
  unfolding calculate_largest_size
  calculate_largest_size-IsLargest pvcs = (
    (largest_from-IsAtMost lib.zero_quantity pvcs).1,
    largest_from-member lib.zero_quantity pvcs _ refl,
  )
