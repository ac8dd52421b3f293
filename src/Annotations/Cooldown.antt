-- ===== src/Annotations/Cooldown.antt =====
-- IsInCooldown, IsPvcResizing and UpdateLastExpansion of pkg/annotations/annotations.go. The
-- clock's reading is an argument: `now` stands for the value of time.Now().
pub mod Window
use pvc_chonker.Prelude.{
  Bool, true, false, ◌||◌, ◌&&◌, Option, none, some, List, [], ◌∷◌, ◌+◌, ◌-◌, ◌^◌, ◌==◌,
  if◌then◌else◌, insert, String, Dict,
}
use pvc_chonker.Prelude.Int.{ℤ, pos, negsuc, pos_part, neg_part, sub_ℕ, ltb_ℤ}
use pvc_chonker.Kube.{Pvc, Condition}
use pvc_chonker.Libs.{Libs}
use pvc_chonker.Annotations.Types.{PvcConfig, annotation_last_expansion}

-- now.Sub(t): the difference, or the nearest int64 where it does not fit one
unfoldable pub time_sub : ℤ → ℤ → ℤ
time_sub now t =
    let d = sub_ℕ (pos_part now + neg_part t) (neg_part now + pos_part t) in
    if ltb_ℤ (pos (2 ^ 63 - 1)) d
    then pos (2 ^ 63 - 1)
    else if ltb_ℤ d (negsuc (2 ^ 63 - 1))
    then negsuc (2 ^ 63 - 1)
    else d

unfoldable pub is_in_cooldown : {F Q : Type 0} → Option (PvcConfig F Q) → ℤ → Bool
is_in_cooldown none now = false
is_in_cooldown (some c) now = elim c.last_expansion [
  | none ↦ false
  | some t ↦ ltb_ℤ (time_sub now t) c.cooldown
]

-- a condition Resizing or FileSystemResizePending that is True
unfoldable pub is_resizing : Condition → Bool
is_resizing c = (c.type == "Resizing" || c.type == "FileSystemResizePending") && c.status == "True"

any_resizing : List Condition → Bool
any_resizing [] = false
any_resizing (c ∷ cs) = is_resizing c || any_resizing cs

unfoldable pub is_pvc_resizing : {Q : Type 0} → Option (Pvc Q) → Bool
unfolding any_resizing
is_pvc_resizing none = false
is_pvc_resizing (some pvc) = any_resizing pvc.conditions

-- the annotations of a nil map are a new map
abbrev pub or_empty {ℓ} : {V : Type ℓ} → Option (Dict V) → Dict V
or_empty none = []
or_empty (some m) = m

-- the update in place of the PVC that the pointer leads to
unfoldable pub update_last_expansion :
    {F Q S : Type 0} → Libs F Q S → ℤ → Option (Pvc Q) → Option (Pvc Q)
update_last_expansion lib now none = none
update_last_expansion lib now (some pvc) = some (record pvc {
  annotations =
      some (insert annotation_last_expansion (lib.format_time now) (or_empty pvc.annotations));
})
