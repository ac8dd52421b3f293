-- ===== src/PolicyStatus/Agree.antt =====
-- The number in a policy's status, and the policies that an event of a PVC leads to.
use pvc_chonker.Prelude.{
  ℕ, suc, String, Bool, true, false, ◌&&◌, ◌||◌, ◌==◌, if◌then◌else◌, Option, some, List, [], ◌∷◌,
  Result, ok, ◌≡◌, refl, arith, Dict, All, select, Bool-cases, inl, inr,
}
use pvc_chonker.Prelude.Int.{ℤ, int32_of}
use pvc_chonker.Kube.{Pvc, Policy, ApiError, NamespacedName}
use pvc_chonker.Libs.{Libs}
use pvc_chonker.PolicyStatus.{
  count_matches, selects_labels, requests_for, find_pvc_policies_for_pvc, reconcile,
}

module _ {F Q S : Type 0} (lib : Libs F Q S) (policies : List (Policy Q S))
    (policy : Policy Q S) where
  -- what List answers for the policies of a namespace, where these are all policies
  abbrev pub policies_in : String → Result ApiError (List (Policy Q S))
  policies_in namespace = ok (select (λ (q : Policy Q S). q.namespace == namespace) policies)

  -- the key of this policy
  abbrev is_key : String → String → Bool
  is_key namespace name = namespace == policy.namespace && name == policy.name

  -- one of the requests is for this policy
  abbrev pub is_requested : List NamespacedName → Bool
  is_requested [] = false
  is_requested (request ∷ requests) = is_key request.namespace request.name || is_requested requests

  -- an event of the PVC leads to a reconciliation of this policy
  abbrev pub leads : Pvc Q → Bool
  leads pvc = is_requested (find_pvc_policies_for_pvc lib policies_in (some pvc))

  -- the number of those PVCs
  unfoldable pub number_leading : List (Pvc Q) → ℕ
  number_leading [] = 0
  number_leading (pvc ∷ pvcs) =
      let rest = number_leading pvcs in if leads pvc then suc rest else rest

  -- the policy is among these
  abbrev pub is_among : List (Policy Q S) → Bool
  is_among [] = false
  is_among (q ∷ qs) = is_key q.namespace q.name || is_among qs

  -- A policy with the key of this one is this one.
  abbrev pub HasOwnKey : Policy Q S → Type 0
  HasOwnKey q = is_key q.namespace q.name ≡ true → q ≡ policy

  is_requested-requests_for :
      (labels : Option (Dict String)) (namespace : String) (qs : List (Policy Q S))
      → All HasOwnKey qs
      → is_requested
          (requests_for lib labels (select (λ (q : Policy Q S). q.namespace == namespace) qs))
        ≡ (is_among qs && (policy.namespace == namespace && selects_labels lib labels policy))
  unfolding requests_for
  is_requested-requests_for labels namespace [] h = refl
  is_requested-requests_for labels namespace (q ∷ qs) (own, h) =
      elim (Bool-cases (is_key q.namespace q.name)) [
        | inl same ↦
            let here = own same in
            ground (arith, here, is_requested-requests_for labels namespace qs h)
        | inr other ↦ ground (arith, is_requested-requests_for labels namespace qs h)
      ]

  leads-eq :
      (pvc : Pvc Q) (matches : Option (Dict String) → Bool)
      → All HasOwnKey policies
      → is_among policies ≡ true
      → lib.selects policy.selector ≡ some matches
      → leads pvc ≡ (policy.namespace == pvc.namespace && matches pvc.labels)
  unfolding find_pvc_policies_for_pvc selects_labels
  leads-eq pvc matches own there valid =
      ground (arith, is_requested-requests_for pvc.labels pvc.namespace policies own)

  -- what List answers for the PVCs of a namespace, where these are all PVCs
  abbrev pub pvcs_in : List (Pvc Q) → String → Result ApiError (List (Pvc Q))
  pvcs_in pvcs namespace = ok (select (λ (p : Pvc Q). namespace == p.namespace) pvcs)

  count_matches-number_leading :
      (pvcs : List (Pvc Q)) (matches : Option (Dict String) → Bool)
      → All HasOwnKey policies
      → is_among policies ≡ true
      → lib.selects policy.selector ≡ some matches
      → count_matches lib matches (select (λ (p : Pvc Q). policy.namespace == p.namespace) pvcs)
        ≡ number_leading pvcs
  unfolding count_matches number_leading
  count_matches-number_leading [] matches own there valid = refl
  count_matches-number_leading (pvc ∷ pvcs) matches own there valid =
      let rest = count_matches-number_leading pvcs matches own there valid in
      rw (leads-eq pvc matches own there valid)
        (elim (Bool-cases (policy.namespace == pvc.namespace)) [
          | inl here ↦ rw (here, rest) refl
          | inr elsewhere ↦ rw elsewhere rest
        ])

  -- The two directions agree. Where the API server has these policies, no two of them with one
  -- namespace and name, and these PVCs, and lists those of a namespace when asked for it: if the
  -- selector of one of the policies is valid, Reconcile updates the status of this policy, and
  -- nothing else of it, with the time and, as an int32, with the number of PVCs, of all namespaces,
  -- whose events lead to a reconciliation of this policy, whatever the other policies select and
  -- whether or not their selectors are valid.
  pub reconcile-number_leading :
      (status_update : Policy Q S → Option ApiError) (now : ℤ) (pvcs : List (Pvc Q))
      (matches : Option (Dict String) → Bool)
      → All HasOwnKey policies
      → is_among policies ≡ true
      → lib.selects policy.selector ≡ some matches
      → (reconcile lib (pvcs_in pvcs) status_update now (ok policy)).1
        ≡ some (record policy {
          status = record {
            matched_pvcs = int32_of (number_leading pvcs);
            last_updated = some now;
          };
        })
  unfolding reconcile
  reconcile-number_leading status_update now pvcs matches own there valid =
      ground (arith, count_matches-number_leading pvcs matches own there valid)
