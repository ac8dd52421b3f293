-- ===== src/Annotations/Policies/FirstMatch.antt =====
-- The loop over the policies takes the first that selects the PVC.
use pvc_chonker.Prelude.{
  Bool, true, false, Option, some, List, [], ◌∷◌, ◌++◌, ◌≡◌, ◌↔◌, inl, inr, refl, arith,
  Option-cases, Bool-cases, ok, Dict, String, All, ap,
}
use pvc_chonker.Kube.{Policy}
use pvc_chonker.Libs.{Libs}
use pvc_chonker.Annotations.Types.{GlobalConfig, PvcConfig}
use pvc_chonker.Annotations.Policies.{build_config_from_policy, match_policies}

module _ {F Q S : Type 0} (lib : Libs F Q S) (labels : Option (Dict String)) where
  -- The policy's selector is valid and gives this answer for the labels.
  abbrev pub Answers : Bool → Policy Q S → Type 0
  Answers answer policy =
      (matches : Option (Dict String) → Bool) × (lib.selects policy.selector ≡ some matches)
      × (matches labels ≡ answer)

  -- The policy selects the labels, and those that stand before it are valid and do not.
  pub record IsFirstMatch (policies : List (Policy Q S)) (policy : Policy Q S) : Type 0 where
    pub before : List (Policy Q S)
    pub after : List (Policy Q S)
    pub listed : policies ≡ before ++ policy ∷ after
    pub passed : All (Answers false) before
    pub selected : Answers true policy

  module _ (global : GlobalConfig F Q) where
    match_policies_skip :
        (q : Policy Q S) (qs : List (Policy Q S))
        → Answers false q
        → match_policies lib (q ∷ qs) labels global ≡ match_policies lib qs labels global
    unfolding match_policies
    match_policies_skip q qs (m, valid, answer) = ground arith

    match_policies_take :
        (q : Policy Q S) (qs : List (Policy Q S))
        → Answers true q
        → match_policies lib (q ∷ qs) labels global ≡ ok (build_config_from_policy lib q global)
    unfolding match_policies
    match_policies_take q qs (m, valid, answer) = ground arith

    match_policies_after :
        (before : List (Policy Q S)) (q : Policy Q S) (after : List (Policy Q S))
        → All (Answers false) before
        → Answers true q
        → match_policies lib (before ++ q ∷ after) labels global
          ≡ ok (build_config_from_policy lib q global)
    match_policies_after [] q after h s = match_policies_take q after s
    match_policies_after (p ∷ ps) q after (h, hs) s =
        rw (match_policies_skip p (ps ++ q ∷ after) h) (match_policies_after ps q after hs s)

    IsFirstMatch-cons :
        (q : Policy Q S) (qs : List (Policy Q S)) (policy : Policy Q S)
        → Answers false q
        → IsFirstMatch qs policy
        → IsFirstMatch (q ∷ qs) policy
    IsFirstMatch-cons q qs policy a m = record {
      before = q ∷ m.before;
      after = m.after;
      listed = ap (λ l. q ∷ l) m.listed;
      passed = (a, m.passed);
      selected = m.selected;
    }

    match_policies-IsFirstMatch :
        (policies : List (Policy Q S)) (c : PvcConfig F Q)
        → match_policies lib policies labels global ≡ ok c
        → (policy : Policy Q S) × IsFirstMatch policies policy
          × (c ≡ build_config_from_policy lib policy global)
    unfolding match_policies
    match_policies-IsFirstMatch [] c e = cc
    match_policies-IsFirstMatch (q ∷ qs) c e = elim (Option-cases (lib.selects q.selector)) [
      | inl invalid ↦ absurd (ground arith)
      | inr (m, valid) ↦ elim (Bool-cases (m labels)) [
        | inl chosen ↦ (
          q,
          record {
            before = [];
            after = qs;
            listed = refl;
            passed = tt;
            selected = (m, valid, chosen);
          },
          ground arith,
        )
        | inr other ↦
            let (policy, first, same) = match_policies-IsFirstMatch qs c (ground arith) in
            (policy, IsFirstMatch-cons q qs policy (m, valid, other) first, same)
      ]
    ]

    -- The policies give a configuration exactly when one of them is the first to select the
    -- labels, after policies with valid selectors only, and the configuration is built from it.
    pub match_policies-eq-ok_iff :
        (policies : List (Policy Q S)) (c : PvcConfig F Q)
        → (match_policies lib policies labels global ≡ ok c) ↔ (
            (policy : Policy Q S) × IsFirstMatch policies policy
            × (c ≡ build_config_from_policy lib policy global))
    match_policies-eq-ok_iff policies c = (
      match_policies-IsFirstMatch policies c,
      λ (policy, m, same).
          rw (m.listed, same) (match_policies_after m.before policy m.after m.passed m.selected),
    )
