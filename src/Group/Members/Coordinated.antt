-- ===== src/Group/Members/Coordinated.antt =====
-- Which members coordinatePVCSizes updates, and to what.
use pvc_chonker.Prelude.{
  Bool, true, false, not, Option, none, some, List, [], ◌∷◌, ◌≡◌, inl, inr, refl, arith, is_ge,
  Bool-cases, Option-cases, select, lookup-insert_self,
}
use pvc_chonker.Kube.{Pvc, ApiError}
use pvc_chonker.Libs.{Libs}
use pvc_chonker.Reconcile.Types.{storage}
use pvc_chonker.Group.Members.{
  Effect, send, coordinated, coordination_failed, update_status, Outcome, done, request,
  with_request, updated, coordinate_pvc_sizes,
}

-- the PVCs of the Update calls, in order
pub sent : {Q : Type 0} → List (Effect Q) → List (Pvc Q)
sent [] = []
sent (send pvc ∷ es) = pvc ∷ sent es
sent (coordinated name a b ∷ es) = sent es
sent (coordination_failed name e ∷ es) = sent es
sent (update_status group ∷ es) = sent es

module _ {F Q S : Type 0} (lib : Libs F Q S) (target : Q) where
  -- the request is less than the target
  abbrev pub is_below : Pvc Q → Bool
  is_below pvc = not (is_ge (lib.cmp (request lib pvc) target))

  -- Each PVC of the second list is the one of the first with the target as its request, and
  -- accepted.
  abbrev pub AreResized : (Pvc Q → Option ApiError) → List (Pvc Q) → List (Pvc Q) → Type 0
  AreResized update [] [] = Unit
  AreResized update (pvc ∷ pvcs) (copy ∷ copies) =
      (with_request lib pvc target ≡ some copy)
      × (request lib copy ≡ target)
      × (update copy ≡ none)
      × AreResized update pvcs copies
  AreResized update _ _ = ⊥

  pub request-with_request :
      (pvc copy : Pvc Q) → with_request lib pvc target ≡ some copy → request lib copy ≡ target
  unfolding with_request
  request-with_request pvc copy e = elim (Option-cases pvc.requests) [
    | inl nil_map ↦ absurd (ground arith)
    | inr (requests, given) ↦ ground (arith, lookup-insert_self storage target requests)
  ]

  module _ (update : Pvc Q → Option ApiError) where
    pub updated-done :
        (pvc : Pvc Q) (rest : Outcome × List (Effect Q)) (o : Option (Pvc Q))
        → (updated lib update pvc target rest o).0 ≡ done
        → (copy : Pvc Q) × (o ≡ some copy)
          × (update copy ≡ none)
          × (rest.0 ≡ done)
          × (sent (updated lib update pvc target rest o).1 ≡ copy ∷ sent rest.1)
    unfolding updated sent
    updated-done pvc rest none e = cc
    updated-done pvc rest (some copy) e = elim (Option-cases (update copy)) [
      | inl accepted ↦ (copy, refl, accepted, ground arith, ground arith)
      | inr (x, refused) ↦ absurd (ground arith)
    ]

    pub coordinate_skip :
        (pvc : Pvc Q) (pvcs : List (Pvc Q))
        → is_ge (lib.cmp (request lib pvc) target) ≡ true
        → coordinate_pvc_sizes lib update (pvc ∷ pvcs) target
          ≡ coordinate_pvc_sizes lib update pvcs target
    unfolding coordinate_pvc_sizes
    coordinate_skip pvc pvcs h = rw h

    pub coordinate_update :
        (pvc : Pvc Q) (pvcs : List (Pvc Q))
        → is_ge (lib.cmp (request lib pvc) target) ≡ false
        → coordinate_pvc_sizes lib update (pvc ∷ pvcs) target
          ≡ updated lib update pvc target
              (coordinate_pvc_sizes lib update pvcs target)
              (with_request lib pvc target)
    unfolding coordinate_pvc_sizes
    coordinate_update pvc pvcs h = rw h

    -- If coordinatePVCSizes returns no error, its Update calls are, in order, one for each PVC
    -- whose request is below the target and for no other: the PVC with the target as its request,
    -- which the API server accepts.
    pub coordinate_pvc_sizes-AreResized :
        (pvcs : List (Pvc Q))
        → (coordinate_pvc_sizes lib update pvcs target).0 ≡ done
        → AreResized update
            (select is_below pvcs)
            (sent (coordinate_pvc_sizes lib update pvcs target).1)
    coordinate_pvc_sizes-AreResized [] e = unfold coordinate_pvc_sizes sent in tt
    coordinate_pvc_sizes-AreResized (pvc ∷ pvcs) e =
        elim (Bool-cases (is_ge (lib.cmp (request lib pvc) target))) [
          | inl enough ↦
              rw (enough, coordinate_skip pvc pvcs enough)
                (coordinate_pvc_sizes-AreResized pvcs (rw (coordinate_skip pvc pvcs enough) at e))
          | inr below ↦
              let (copy, resized, accepted, later, effects) =
                updated-done pvc (coordinate_pvc_sizes lib update pvcs target)
                  (with_request lib pvc target) (rw (coordinate_update pvc pvcs below) at e) in
              rw (below, coordinate_update pvc pvcs below, effects)
                (
                  resized,
                  request-with_request pvc copy resized,
                  accepted,
                  coordinate_pvc_sizes-AreResized pvcs later,
                )
        ]
