-- ===== src/Annotations/Policies/Sources.antt =====
-- Where the configuration of a PVC comes from, and what follows for its cooldown.
use pvc_chonker.Prelude.{
  true, false, none, some, List, ◌≡◌, ◌↔◌, inl, inr, refl, arith, Bool-cases, ok, err, Result,
  String,
}
use pvc_chonker.Prelude.Int.{ℤ}
use pvc_chonker.Kube.{Pvc, Policy, ApiError}
use pvc_chonker.Libs.{Libs}
use pvc_chonker.Annotations.Types.{GlobalConfig, PvcConfig, ConfigError}
use pvc_chonker.Annotations.Parse.{parse_pvc_annotations}
use pvc_chonker.Annotations.Cooldown.{is_in_cooldown}
use pvc_chonker.Annotations.Policies.{
  build_config_from_policy, switched_off_config, from_policies, resolve_pvc_config, is_switched_off,
}
use pvc_chonker.Annotations.Policies.FirstMatch.{IsFirstMatch, match_policies-eq-ok_iff}

module _ {F Q S : Type 0} (lib : Libs F Q S)
    (list_policies : String → Result ApiError (List (Policy Q S))) (pvc : Pvc Q)
    (global : GlobalConfig F Q) where
  -- The three sources of a configuration, in their order of precedence.
  pub data Source (c : PvcConfig F Q) : Type 0 where
    switched_off :
        is_switched_off pvc.annotations ≡ true → c ≡ switched_off_config lib global → Source c
    own_annotations :
        is_switched_off pvc.annotations ≡ false
        → parse_pvc_annotations lib (some pvc) (some global) ≡ ok c
        → Source c
    policy :
        (e : ConfigError) (policies : List (Policy Q S)) (p : Policy Q S)
        → is_switched_off pvc.annotations ≡ false
        → parse_pvc_annotations lib (some pvc) (some global) ≡ err e
        → list_policies pvc.namespace ≡ ok policies
        → IsFirstMatch lib pvc.labels policies p
        → c ≡ build_config_from_policy lib p global
        → Source c

  from_policies-Source :
      (e : ConfigError) (c : PvcConfig F Q)
      → is_switched_off pvc.annotations ≡ false
      → parse_pvc_annotations lib (some pvc) (some global) ≡ err e
      → (r : Result ApiError (List (Policy Q S))) → list_policies pvc.namespace ≡ r
      → from_policies lib r pvc global ≡ ok c
      → Source c
  unfolding from_policies
  from_policies-Source e c on failed (err a) l h = cc
  from_policies-Source e c on failed (ok policies) l h =
      let (p, first, same) = (match_policies-eq-ok_iff lib pvc.labels global policies c).0 h in
      policy e policies p on failed l first same

  resolve_pvc_config-Source :
      (c : PvcConfig F Q) (r : Result ConfigError (PvcConfig F Q))
      → parse_pvc_annotations lib (some pvc) (some global) ≡ r
      → resolve_pvc_config lib list_policies pvc global ≡ ok c
      → Source c
  unfolding resolve_pvc_config
  resolve_pvc_config-Source c r parsed h = elim (Bool-cases (is_switched_off pvc.annotations)) [
    | inl off ↦ switched_off off (ground arith)
    | inr on ↦ by_result r on parsed
  ]
    where
      by_result :
          (r : Result ConfigError (PvcConfig F Q))
          → is_switched_off pvc.annotations ≡ false
          → parse_pvc_annotations lib (some pvc) (some global) ≡ r
          → Source c
      by_result (ok c') on p = own_annotations on (ground arith)
      by_result (err e) on p = from_policies-Source e c on p _ refl (ground arith)

  Source-resolve_pvc_config :
      (c : PvcConfig F Q) → Source c → resolve_pvc_config lib list_policies pvc global ≡ ok c
  unfolding resolve_pvc_config
  Source-resolve_pvc_config c (switched_off off same) = ground arith
  Source-resolve_pvc_config c (own_annotations on parsed) = ground arith
  Source-resolve_pvc_config c (policy e policies p on failed listed first same) =
      ground (arith, (match_policies-eq-ok_iff lib pvc.labels global policies c).1 (p, first, same))

  -- A PVC resolves to a configuration exactly from one of three sources: the annotation enabled
  -- that says "false" in some case gives the global values, switched off; else its own annotations,
  -- where they parse; else the first policy of its namespace that selects it.
  pub resolve_pvc_config-eq-ok_iff :
      (c : PvcConfig F Q) → (resolve_pvc_config lib list_policies pvc global ≡ ok c) ↔ Source c
  resolve_pvc_config-eq-ok_iff c = (resolve_pvc_config-Source c _ refl, Source-resolve_pvc_config c)

  Source-last_expansion :
      (c : PvcConfig F Q) (e : ConfigError)
      → parse_pvc_annotations lib (some pvc) (some global) ≡ err e
      → Source c
      → c.last_expansion ≡ none
  unfolding build_config_from_policy
  Source-last_expansion c e failed (switched_off off same) = ground arith
  Source-last_expansion c e failed (own_annotations on parsed) = absurd (cc)
  Source-last_expansion c e failed (policy _ policies p on _ listed first same) = ground arith

  -- A PVC whose own annotations do not parse, as one that only a policy manages, is never in its
  -- cooldown, whatever the time and whatever its annotation last-expansion says.
  pub resolve_pvc_config-is_in_cooldown :
      (c : PvcConfig F Q) (e : ConfigError) (now : ℤ)
      → parse_pvc_annotations lib (some pvc) (some global) ≡ err e
      → resolve_pvc_config lib list_policies pvc global ≡ ok c
      → is_in_cooldown (some c) now ≡ false
  unfolding is_in_cooldown
  resolve_pvc_config-is_in_cooldown c e now failed h =
      ground (arith, Source-last_expansion c e failed ((resolve_pvc_config-eq-ok_iff c).0 h))
