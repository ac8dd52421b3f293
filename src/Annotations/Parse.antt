-- ===== src/Annotations/Parse.antt =====
-- ParsePVCAnnotations of pkg/annotations/annotations.go, and what a parsed configuration is.
pub mod Meaning
use pvc_chonker.Prelude.{
  String, Bool, true, Option, none, some, ◌≡◌, ◌↔◌, arith, ◌==◌, if◌then◌else◌, Result, ok, err,
  ◌>>=◌, >>=-eq-ok, or_else, wrap_err, Dict, lookup, refl, inl, inr, Option-cases, Bool-cases,
}
use pvc_chonker.Prelude.Int.{ℤ}
use pvc_chonker.Prelude.Text.{to_lower}
use pvc_chonker.Kube.{Pvc}
use pvc_chonker.Libs.{Libs}
use pvc_chonker.Annotations.Types.{
  annotation_enabled, annotation_threshold, annotation_inodes_threshold, annotation_increase,
  annotation_max_size, annotation_cooldown, annotation_min_scale_up, annotation_last_expansion,
  GlobalConfig, PvcConfig, ConfigError, pvc_nil, global_nil, no_annotations, not_enabled, disabled,
  invalid_threshold, invalid_inodes_threshold, invalid_max_size, invalid_cooldown,
  invalid_min_scale_up, invalid_last_expansion,
}
use pvc_chonker.Annotations.Percentage.{parse_percentage, IsPercentage, parse_percentage-eq-ok_iff}

-- `if v, exists := pvc.Annotations[key]; exists { parse v } else { the default }`
setting {ℓ} : {A : Type ℓ} {E : Type ℓ} → Option String → (String → Result E A) → A → Result E A
setting none parse default = ok default
setting (some v) parse default = parse v

-- The same without the code: the default if the annotation is absent, else a reading of its text.
abbrev pub Reads {ℓ} : {A : Type ℓ} → Option String → (String → A → Type ℓ) → A → A → Type ℓ
Reads none R default a = a ≡ default
Reads (some v) R default a = R v a

setting-eq-ok_iff {ℓ} :
    {A E : Type ℓ} (o : Option String) (parse : String → Result E A) (R : String → A → Type ℓ)
    (default a : A)
    → ((v : String) → (parse v ≡ ok a) ↔ R v a)
    → (setting o parse default ≡ ok a) ↔ Reads o R default a
unfolding setting
setting-eq-ok_iff none parse R default a h = (λ e. cc, λ e. cc)
setting-eq-ok_iff (some v) parse R default a h = h v

module _ {F Q S : Type 0} (lib : Libs F Q S) where
  threshold_of : (v : String) → Result ConfigError F
  threshold_of v = wrap_err invalid_threshold (parse_percentage lib v)

  inodes_threshold_of : (v : String) → Result ConfigError F
  inodes_threshold_of v = wrap_err invalid_inodes_threshold (parse_percentage lib v)

  last_expansion_of : (v : String) → Result ConfigError (Option ℤ)
  last_expansion_of v = do t ← or_else (lib.parse_time v) invalid_last_expansion; ok (some t)

  -- the body below the three nil checks
  parse_annotations : Dict String → GlobalConfig F Q → Result ConfigError (PvcConfig F Q)
  parse_annotations a global = do
    enabled ← or_else (lookup annotation_enabled a) not_enabled
    if to_lower enabled == "true"
        then (do
          threshold ← setting (lookup annotation_threshold a) threshold_of global.threshold
          inodes ←
              setting (lookup annotation_inodes_threshold a) inodes_threshold_of
                global.inodes_threshold
          increase ← setting (lookup annotation_increase a) ok global.increase
          max_size ←
              setting (lookup annotation_max_size a)
                (λ v. or_else (lib.parse_quantity v) invalid_max_size) global.max_size
          cooldown ←
              setting (lookup annotation_cooldown a)
                (λ v. or_else (lib.parse_duration v) invalid_cooldown) global.cooldown
          min_scale_up ←
              setting (lookup annotation_min_scale_up a)
                (λ v. or_else (lib.parse_quantity v) invalid_min_scale_up) global.min_scale_up
          last_expansion ← setting (lookup annotation_last_expansion a) last_expansion_of none
          ok (record {
            enabled = true;
            threshold = threshold;
            inodes_threshold = inodes;
            increase = increase;
            max_size = max_size;
            cooldown = cooldown;
            min_scale_up = min_scale_up;
            last_expansion = last_expansion;
          }))
        else err disabled

  unfoldable pub parse_pvc_annotations :
      Option (Pvc Q) → Option (GlobalConfig F Q) → Result ConfigError (PvcConfig F Q)
  unfolding parse_annotations setting threshold_of inodes_threshold_of last_expansion_of
  parse_pvc_annotations none global = err pvc_nil
  parse_pvc_annotations (some pvc) none = err global_nil
  parse_pvc_annotations (some pvc) (some global) = elim pvc.annotations [
    | none ↦ err no_annotations
    | some a ↦ parse_annotations a global
  ]

  -- What a configuration read from the annotations `a` is, without the order of the code's tests.
  pub record IsParsed (a : Dict String) (global : GlobalConfig F Q) (c : PvcConfig F Q)
      : Type 0 where
    pub switch : String
    pub switched : lookup annotation_enabled a ≡ some switch
    pub on : (to_lower switch == "true") ≡ true
    pub enabled : c.enabled ≡ true
    pub threshold :
        Reads (lookup annotation_threshold a) (IsPercentage lib) global.threshold c.threshold
    pub inodes_threshold :
        Reads
          (lookup annotation_inodes_threshold a)
          (IsPercentage lib)
          global.inodes_threshold
          c.inodes_threshold
    pub increase : Reads (lookup annotation_increase a) (λ v i. i ≡ v) global.increase c.increase
    pub max_size :
        Reads
          (lookup annotation_max_size a)
          (λ v q. lib.parse_quantity v ≡ some q)
          global.max_size
          c.max_size
    pub cooldown :
        Reads
          (lookup annotation_cooldown a)
          (λ v d. lib.parse_duration v ≡ some d)
          global.cooldown
          c.cooldown
    pub min_scale_up :
        Reads
          (lookup annotation_min_scale_up a)
          (λ v q. lib.parse_quantity v ≡ some q)
          global.min_scale_up
          c.min_scale_up
    pub last_expansion :
        Reads
          (lookup annotation_last_expansion a)
          (λ v o. (t : ℤ) × (lib.parse_time v ≡ some t) × (o ≡ some t))
          none
          c.last_expansion
