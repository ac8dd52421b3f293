-- ===== src/Group/Members/Converges.antt =====
-- A coordination that succeeds leaves nothing to coordinate.
use pvc_chonker.Prelude.{
  true, Option, none, some, List, [], ◌∷◌, map, ◌≡◌, ◌⊎◌, inl, inr, refl, arith, is_ge,
  if◌then◌else◌, Bool-cases, All, Any, ◌∙◌,
}
use pvc_chonker.Kube.{Pvc, ApiError}
use pvc_chonker.Libs.{Libs, QuantityLaws}
use pvc_chonker.Group.Members.{
  done, request, with_request, calculate_largest_size, coordinate_pvc_sizes,
}
use pvc_chonker.Group.Members.Coordinated.{
  is_below, coordinate_skip, coordinate_update, updated-done, request-with_request,
}
use pvc_chonker.Group.Members.Largest.{
  IsAtMost, calculate_largest_size-IsLargest, largest_from-IsAtMost,
}

module _ {F Q S : Type 0} (lib : Libs F Q S) where
  -- The PVC after the coordination: with the target as its request, if it was below it.
  abbrev pub settled : Q → Pvc Q → Pvc Q
  settled target pvc =
      if is_below lib target pvc
      then elim (with_request lib pvc target) [ some copy ↦ copy | none ↦ pvc ]
      else pvc

module _ {F Q S : Type 0} (lib : Libs F Q S) (laws : QuantityLaws lib)
    (update : Pvc Q → Option ApiError) where
  abbrev IsSettled : Q → Pvc Q → Type 0
  IsSettled target pvc = is_ge (lib.cmp (request lib pvc) target) ≡ true

  -- Each PVC at the target or above is left alone.
  coordinate_of_settled :
      (pvcs : List (Pvc Q)) (target : Q)
      → All (IsSettled target) pvcs
      → coordinate_pvc_sizes lib update pvcs target ≡ (done, [])
  coordinate_of_settled [] target h = unfold coordinate_pvc_sizes in refl
  coordinate_of_settled (pvc ∷ pvcs) target (enough, h) =
      coordinate_skip lib target update pvc pvcs enough ∙ coordinate_of_settled pvcs target h

  -- what is known of each PVC afterwards: its request is the target, or was enough before
  IsLeft : Q → Pvc Q → Pvc Q → Type 0
  IsLeft target pvc after =
      (request lib after ≡ target)
      ⊎ ((after ≡ pvc) × (is_ge (lib.cmp (request lib pvc) target) ≡ true))

  settled-IsLeft :
      (pvcs : List (Pvc Q)) (target : Q)
      → (coordinate_pvc_sizes lib update pvcs target).0 ≡ done
      → All (λ pvc. IsLeft target pvc (settled lib target pvc)) pvcs
  unfolding IsLeft
  settled-IsLeft [] target e = tt
  settled-IsLeft (pvc ∷ pvcs) target e =
      elim (Bool-cases (is_ge (lib.cmp (request lib pvc) target))) [
        | inl enough ↦ (
          rw enough (inr (refl, refl)),
          settled-IsLeft pvcs target (rw (coordinate_skip lib target update pvc pvcs enough) at e),
        )
        | inr below ↦
            let (copy, resized, accepted, later, effects) =
              updated-done lib target update pvc (coordinate_pvc_sizes lib update pvcs target)
                (with_request lib pvc target)
                (rw (coordinate_update lib target update pvc pvcs below) at e) in
            (
              rw (below, resized) (inl (request-with_request lib target pvc copy resized)),
              settled-IsLeft pvcs target later,
            )
      ]

  -- at the target exactly, in the order of quantities
  abbrev IsLevel : Q → Pvc Q → Type 0
  IsLevel target pvc =
      IsAtMost lib laws (request lib pvc) target × IsAtMost lib laws target (request lib pvc)

  IsLevel-of :
      (target : Q) (pvc after : Pvc Q)
      → IsLeft target pvc after
      → IsAtMost lib laws (request lib pvc) target
      → IsLevel target after
  unfolding IsLeft
  IsLevel-of target pvc after (inl e) most =
      let self : IsAtMost lib laws target target = ground (arith, laws.cmp_refl target) in
      (rw e self, rw e self)
  IsLevel-of target pvc after (inr (same, enough)) most =
      let least : IsAtMost lib laws target (request lib pvc) =
        ground (arith, laws.cmp_flip target (request lib pvc)) in
      (rw same most, rw same least)

  settled-IsLevel :
      (pvcs : List (Pvc Q)) (target : Q)
      → All (λ pvc. IsLeft target pvc (settled lib target pvc)) pvcs
      → All (λ pvc. IsAtMost lib laws (request lib pvc) target) pvcs
      → All (IsLevel target) (map (settled lib target) pvcs)
  settled-IsLevel [] target h k = tt
  settled-IsLevel (pvc ∷ pvcs) target (left, h) (most, k) =
      (IsLevel-of target pvc (settled lib target pvc) left most, settled-IsLevel pvcs target h k)

  Any-IsAtMost :
      (pvcs : List (Pvc Q)) (size target : Q)
      → Any (λ pvc. size ≡ request lib pvc) pvcs
      → All (IsLevel target) pvcs
      → IsAtMost lib laws size target
  Any-IsAtMost [] size target nowhere h = elim nowhere [ ]
  Any-IsAtMost (pvc ∷ pvcs) size target (inl e) ((most, least), h) = rw e most
  Any-IsAtMost (pvc ∷ pvcs) size target (inr later) (level, h) =
      Any-IsAtMost pvcs size target later h

  level-IsSettled :
      (pvcs : List (Pvc Q)) (size target : Q)
      → IsAtMost lib laws size target
      → All (IsLevel target) pvcs
      → All (IsSettled size) pvcs
  level-IsSettled [] size target most h = tt
  level-IsSettled (pvc ∷ pvcs) size target most ((above, below), h) = (
    ground (
      arith,
      laws.cmp_trans size target (request lib pvc) most below,
      laws.cmp_flip size (request lib pvc),
    ),
    level-IsSettled pvcs size target most h,
  )

  zero_quantity-IsAtMost :
      (pvcs : List (Pvc Q)) → IsAtMost lib laws lib.zero_quantity (calculate_largest_size lib pvcs)
  unfolding calculate_largest_size
  zero_quantity-IsAtMost pvcs = (largest_from-IsAtMost lib laws lib.zero_quantity pvcs).0

  -- A successful coordination converges: if coordinatePVCSizes returns no error for the size that
  -- calculateLargestSize gives, then with the requests that it has asked for, and a total order on
  -- quantities, the next coordination of the same members, with the size that calculateLargestSize
  -- then gives, asks for nothing and returns no error.
  pub coordinate_pvc_sizes-converges :
      (pvcs : List (Pvc Q))
      → (coordinate_pvc_sizes lib update pvcs (calculate_largest_size lib pvcs)).0 ≡ done
      → let after = map (settled lib (calculate_largest_size lib pvcs)) pvcs in
        coordinate_pvc_sizes lib update after (calculate_largest_size lib after) ≡ (done, [])
  coordinate_pvc_sizes-converges pvcs e =
      let target = calculate_largest_size lib pvcs in
      let after = map (settled lib target) pvcs in
      let (most, from_one) = calculate_largest_size-IsLargest lib laws pvcs in
      let level = settled-IsLevel pvcs target (settled-IsLeft pvcs target e) most in
      let at_most : IsAtMost lib laws (calculate_largest_size lib after) target =
        elim ((calculate_largest_size-IsLargest lib laws after).1) [
          | inl zero_size ↦ rw zero_size (zero_quantity-IsAtMost pvcs)
          | inr one ↦ Any-IsAtMost after _ target one level
        ] in
      coordinate_of_settled after (calculate_largest_size lib after)
        (level-IsSettled after _ target at_most level)
