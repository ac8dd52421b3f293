-- ===== src/Annotations/Cooldown/Window.antt =====
-- When a PVC is in its cooldown, and that UpdateLastExpansion starts it.
use pvc_chonker.Prelude.{
  String, true, some, List, [], ◌∷◌, ◌-◌, ◌^◌, ◌≡◌, ◌↔◌, ◌⊎◌, inl, inr, arith, eq_iff, ok, lookup,
  lookup-insert_self, Any, insert, Dict, Bool-cases, ◌||◌,
}
use pvc_chonker.Prelude.Int.{ℤ, pos, negsuc, ◌≤ℤ◌, ◌<ℤ◌, ◌+ℤ◌}
use pvc_chonker.Kube.{Pvc, Condition}
use pvc_chonker.Libs.{Libs}
use pvc_chonker.Annotations.Types.{GlobalConfig, PvcConfig, annotation_last_expansion}
use pvc_chonker.Annotations.Parse.{parse_pvc_annotations, IsParsed}
use pvc_chonker.Annotations.Parse.Meaning.{parse_pvc_annotations-eq-ok_iff}
use pvc_chonker.Annotations.Cooldown.{
  time_sub, is_in_cooldown, is_resizing, any_resizing, is_pvc_resizing, or_empty,
  update_last_expansion,
}

-- A PVC whose last expansion was at `t` is in its cooldown exactly while the clock is before `t`
-- plus the cooldown, for a cooldown that is an int64 other than the least. This holds however far
-- apart the two times are.
pub is_in_cooldown_iff :
    {F Q : Type 0} (c : PvcConfig F Q) (now t : ℤ)
    → c.last_expansion ≡ some t
    → negsuc (2 ^ 63 - 1) <ℤ c.cooldown
    → c.cooldown ≤ℤ pos (2 ^ 63 - 1)
    → (is_in_cooldown (some c) now ≡ true) ↔ (now <ℤ t +ℤ c.cooldown)
unfolding is_in_cooldown time_sub
is_in_cooldown_iff c now t e low high = ground arith

-- What a condition means that stops an expansion.
abbrev pub IsResizing : Condition → Type 0
IsResizing c = ((c.type ≡ "Resizing") ⊎ (c.type ≡ "FileSystemResizePending")) × (c.status ≡ "True")

is_resizing_iff : (c : Condition) → (is_resizing c ≡ true) ↔ IsResizing c
unfolding is_resizing
is_resizing_iff c = ground (
  arith,
  eq_iff c.type "Resizing",
  eq_iff c.type "FileSystemResizePending",
  eq_iff c.status "True",
)

any_resizing_iff : (cs : List Condition) → (any_resizing cs ≡ true) ↔ Any IsResizing cs
unfolding any_resizing
any_resizing_iff [] = (λ e. cc, λ h. elim h [ ])
any_resizing_iff (c ∷ cs) =
    let (to, from) = is_resizing_iff c in
    let (to', from') = any_resizing_iff cs in
    (cases to to', elim [ inl h ↦ ground (arith, from h) | inr h ↦ ground (arith, from' h) ])
  where
    cases :
        (is_resizing c ≡ true → IsResizing c)
        → (any_resizing cs ≡ true → Any IsResizing cs)
        → (is_resizing c || any_resizing cs) ≡ true
        → IsResizing c ⊎ Any IsResizing cs
    cases f g e = elim (Bool-cases (is_resizing c)) [
      | inl here ↦ inl (f here)
      | inr not_here ↦ inr (g (ground arith))
    ]

-- A PVC counts as resizing exactly when one of its conditions is Resizing or
-- FileSystemResizePending and has the status "True".
pub is_pvc_resizing_iff :
    {Q : Type 0} (pvc : Pvc Q) → (is_pvc_resizing (some pvc) ≡ true) ↔ Any IsResizing pvc.conditions
unfolding is_pvc_resizing
is_pvc_resizing_iff pvc = any_resizing_iff pvc.conditions

module _ {F Q S : Type 0} (lib : Libs F Q S) where
  -- What UpdateLastExpansion writes is read back by ParsePVCAnnotations: if the PVC, stamped at
  -- `now`, is parsed to `c`, and the text of `now` parses to `t`, then `c` has `t` as its last
  -- expansion. So the PVC is in its cooldown exactly while the clock is before `t` plus the
  -- cooldown, for a cooldown that is an int64 other than the least.
  pub update_last_expansion-is_in_cooldown :
      (pvc stamped : Pvc Q) (global : GlobalConfig F Q) (c : PvcConfig F Q) (now t later : ℤ)
      → update_last_expansion lib now (some pvc) ≡ some stamped
      → parse_pvc_annotations lib (some stamped) (some global) ≡ ok c
      → lib.parse_time (lib.format_time now) ≡ some t
      → negsuc (2 ^ 63 - 1) <ℤ c.cooldown
      → c.cooldown ≤ℤ pos (2 ^ 63 - 1)
      → (is_in_cooldown (some c) later ≡ true) ↔ (later <ℤ t +ℤ c.cooldown)
  unfolding update_last_expansion
  update_last_expansion-is_in_cooldown pvc stamped global c now t later u e r low high =
      is_in_cooldown_iff c later t (read_back ((parse_pvc_annotations-eq-ok_iff lib _ _ _).0 e)) low
        high
    where
      read_back :
          (a : Dict String) × (stamped.annotations ≡ some a) × IsParsed lib a global c
          → c.last_expansion ≡ some t
      read_back (a, found, i) =
          let same : a
              ≡ insert annotation_last_expansion (lib.format_time now) (or_empty pvc.annotations) =
            ground arith in
          let here : lookup annotation_last_expansion a ≡ some (lib.format_time now) =
            rw same (lookup-insert_self _ _ _) in
          let (t', read, last) = rw here at (i.last_expansion) in ground arith
