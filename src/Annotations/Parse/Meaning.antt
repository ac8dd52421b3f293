-- ===== src/Annotations/Parse/Meaning.antt =====
-- ParsePVCAnnotations succeeds exactly with the configurations that its annotations describe.
use pvc_chonker.Prelude.{
  or_else-eq-ok_iff, wrap_err-eq-ok_iff, String, true, Option, none, some, ◌≡◌, ◌↔◌, arith, ◌==◌,
  Result, ok, or_else, wrap_err, Dict, lookup, refl, inl, inr, Option-cases,
}
use pvc_chonker.Prelude.Int.{ℤ}
use pvc_chonker.Prelude.Text.{to_lower}
use pvc_chonker.Kube.{Pvc}
use pvc_chonker.Libs.{Libs}
use pvc_chonker.Annotations.Types.{
  annotation_enabled, annotation_threshold, annotation_inodes_threshold, annotation_increase,
  annotation_max_size, annotation_cooldown, annotation_min_scale_up, annotation_last_expansion,
  GlobalConfig, PvcConfig, ConfigError, PercentError, invalid_max_size, invalid_cooldown,
  invalid_min_scale_up,
}
use pvc_chonker.Annotations.Percentage.{parse_percentage, IsPercentage, parse_percentage-eq-ok_iff}
use pvc_chonker.Annotations.Parse.{
  setting, setting-eq-ok_iff, threshold_of, inodes_threshold_of, last_expansion_of,
  parse_annotations, parse_pvc_annotations, IsParsed,
}

module _ {F Q S : Type 0} (lib : Libs F Q S) where
  setting-parse_percentage_iff :
      (f : PercentError → ConfigError) (v : String) (p : F)
      → (wrap_err f (parse_percentage lib v) ≡ ok p) ↔ IsPercentage lib v p
  setting-parse_percentage_iff f v p =
      let (a, b) = wrap_err-eq-ok_iff f (parse_percentage lib v) p in
      let (c, d) = parse_percentage-eq-ok_iff lib v p in (λ e. c (a e), λ i. b (d i))

  last_expansion_iff :
      (v : String) (o : Option ℤ)
      → (last_expansion_of lib v ≡ ok o) ↔ ((t : ℤ) × (lib.parse_time v ≡ some t) × (o ≡ some t))
  unfolding last_expansion_of
  last_expansion_iff v o = (to (lib.parse_time v) refl, λ (t, e, p). ground arith)
    where
      to :
          (r : Option ℤ)
          → lib.parse_time v ≡ r
          → last_expansion_of lib v ≡ ok o
          → (t : ℤ) × (lib.parse_time v ≡ some t) × (o ≡ some t)
      to none e h = absurd (ground arith)
      to (some t) e h = (t, e, ground arith)

  threshold_iff : (v : String) (p : F) → (threshold_of lib v ≡ ok p) ↔ IsPercentage lib v p
  unfolding threshold_of
  threshold_iff v p = setting-parse_percentage_iff _ v p

  inodes_threshold_iff :
      (v : String) (p : F) → (inodes_threshold_of lib v ≡ ok p) ↔ IsPercentage lib v p
  unfolding inodes_threshold_of
  inodes_threshold_iff v p = setting-parse_percentage_iff _ v p

  ok_iff : (v i : String) → (◌≡◌ {A = Result ConfigError String} (ok v) (ok i)) ↔ (i ≡ v)
  ok_iff v i = (λ e. cc, λ e. cc)

  module _ (a : Dict String) (global : GlobalConfig F Q) (c : PvcConfig F Q) where
    -- The values of the seven settings, and the test that comes first.
    record Steps : Type 0 where
      switch : String
      switched : lookup annotation_enabled a ≡ some switch
      on : (to_lower switch == "true") ≡ true
      enabled : c.enabled ≡ true
      threshold :
          setting (lookup annotation_threshold a) (threshold_of lib) global.threshold
          ≡ ok c.threshold
      inodes_threshold :
          setting
            (lookup annotation_inodes_threshold a)
            (inodes_threshold_of lib)
            global.inodes_threshold
          ≡ ok c.inodes_threshold
      increase :
          ◌≡◌ {A = Result ConfigError String}
            (setting (lookup annotation_increase a) ok global.increase)
            (ok c.increase)
      max_size :
          setting
            (lookup annotation_max_size a)
            (λ v. or_else (lib.parse_quantity v) invalid_max_size)
            global.max_size
          ≡ ok c.max_size
      cooldown :
          setting
            (lookup annotation_cooldown a)
            (λ v. or_else (lib.parse_duration v) invalid_cooldown)
            global.cooldown
          ≡ ok c.cooldown
      min_scale_up :
          setting
            (lookup annotation_min_scale_up a)
            (λ v. or_else (lib.parse_quantity v) invalid_min_scale_up)
            global.min_scale_up
          ≡ ok c.min_scale_up
      last_expansion :
          setting (lookup annotation_last_expansion a) (last_expansion_of lib) none
          ≡ ok c.last_expansion

    parse_annotations-Steps : parse_annotations lib a global ≡ ok c → Steps
    unfolding parse_annotations
    parse_annotations-Steps e = elim (Option-cases (lookup annotation_enabled a)) [
      | inl missing ↦ absurd (ground arith)
      | inr (switch, switched) ↦ record {
        switch = switch;
        switched = switched;
        on = ground arith;
        enabled = ground arith;
        threshold = ground arith;
        inodes_threshold = ground arith;
        increase = ground arith;
        max_size = ground arith;
        cooldown = ground arith;
        min_scale_up = ground arith;
        last_expansion = ground arith;
      }
    ]

    parse_annotations-eq-ok : Steps → parse_annotations lib a global ≡ ok c
    unfolding parse_annotations
    parse_annotations-eq-ok s = ground arith

    Steps-IsParsed : Steps → IsParsed lib a global c
    Steps-IsParsed s = record {
      switch = s.switch;
      switched = s.switched;
      on = s.on;
      enabled = s.enabled;
      threshold = (setting-eq-ok_iff _ _ _ _ _ (λ v. threshold_iff v c.threshold)).0 s.threshold;
      inodes_threshold =
          (setting-eq-ok_iff _ _ _ _ _ (λ v. inodes_threshold_iff v c.inodes_threshold)).0
            s.inodes_threshold;
      increase = (setting-eq-ok_iff _ _ _ _ _ (λ v. ok_iff v c.increase)).0 s.increase;
      max_size = (setting-eq-ok_iff _ _ _ _ _ (λ v. or_else-eq-ok_iff _ _ c.max_size)).0 s.max_size;
      cooldown = (setting-eq-ok_iff _ _ _ _ _ (λ v. or_else-eq-ok_iff _ _ c.cooldown)).0 s.cooldown;
      min_scale_up =
          (setting-eq-ok_iff _ _ _ _ _ (λ v. or_else-eq-ok_iff _ _ c.min_scale_up)).0
            s.min_scale_up;
      last_expansion =
          (setting-eq-ok_iff _ _ _ _ _ (λ v. last_expansion_iff v c.last_expansion)).0
            s.last_expansion;
    }

    IsParsed-Steps : IsParsed lib a global c → Steps
    IsParsed-Steps s = record {
      switch = s.switch;
      switched = s.switched;
      on = s.on;
      enabled = s.enabled;
      threshold = (setting-eq-ok_iff _ _ _ _ _ (λ v. threshold_iff v c.threshold)).1 s.threshold;
      inodes_threshold =
          (setting-eq-ok_iff _ _ _ _ _ (λ v. inodes_threshold_iff v c.inodes_threshold)).1
            s.inodes_threshold;
      increase = (setting-eq-ok_iff _ _ _ _ _ (λ v. ok_iff v c.increase)).1 s.increase;
      max_size = (setting-eq-ok_iff _ _ _ _ _ (λ v. or_else-eq-ok_iff _ _ c.max_size)).1 s.max_size;
      cooldown = (setting-eq-ok_iff _ _ _ _ _ (λ v. or_else-eq-ok_iff _ _ c.cooldown)).1 s.cooldown;
      min_scale_up =
          (setting-eq-ok_iff _ _ _ _ _ (λ v. or_else-eq-ok_iff _ _ c.min_scale_up)).1
            s.min_scale_up;
      last_expansion =
          (setting-eq-ok_iff _ _ _ _ _ (λ v. last_expansion_iff v c.last_expansion)).1
            s.last_expansion;
    }

  -- The annotations of a PVC are parsed to `c` exactly when they are there, say "true" in some case
  -- under the key enabled, and each field of `c` is the reading of its annotation where that is
  -- present and the global value (none, for the last expansion) where it is absent.
  pub parse_pvc_annotations-eq-ok_iff :
      (pvc : Pvc Q) (global : GlobalConfig F Q) (c : PvcConfig F Q)
      → (parse_pvc_annotations lib (some pvc) (some global) ≡ ok c)
        ↔ ((a : Dict String) × (pvc.annotations ≡ some a) × IsParsed lib a global c)
  unfolding parse_pvc_annotations
  parse_pvc_annotations-eq-ok_iff pvc global c = (to, from)
    where
      to :
          parse_pvc_annotations lib (some pvc) (some global) ≡ ok c
          → (a : Dict String) × (pvc.annotations ≡ some a) × IsParsed lib a global c
      to e = elim (Option-cases pvc.annotations) [
        | inl missing ↦ absurd (ground arith)
        | inr (a, found) ↦ (
          a,
          found,
          Steps-IsParsed a global c (parse_annotations-Steps a global c (ground arith)),
        )
      ]

      from :
          (a : Dict String) × (pvc.annotations ≡ some a) × IsParsed lib a global c
          → parse_pvc_annotations lib (some pvc) (some global) ≡ ok c
      from (a, found, i) =
          ground (arith, parse_annotations-eq-ok a global c (IsParsed-Steps a global c i))
