-- ===== src/Reconcile/Panics.antt =====
-- A panic among effects, and what comes after it.
use pvc_chonker.Prelude.{
  Bool, true, false, ◌||◌, List, [], ◌∷◌, ◌++◌, ◌≡◌, refl, if◌then◌else◌, Bool-cases, inl, inr,
}
use mathlib.Core.List.{append-nil}
use pvc_chonker.Metrics.{MetricOp}
use pvc_chonker.Reconcile.Types.{Effect, metric, send, event, panic, metrics, has_panic, and_then}
use pvc_chonker.Reconcile.Sent.{sent, sent-append}

pub or_false : (b : Bool) → (b || false) ≡ b
or_false true = refl
or_false false = refl

module _ {F Q : Type 0} where
  pub has_panic-append :
      (es fs : List (Effect F Q)) → has_panic (es ++ fs) ≡ (has_panic es || has_panic fs)
  unfolding has_panic
  has_panic-append [] fs = refl
  has_panic-append (metric op ∷ es) fs = has_panic-append es fs
  has_panic-append (send pvc ∷ es) fs = has_panic-append es fs
  has_panic-append (event type reason message ∷ es) fs = has_panic-append es fs
  has_panic-append (panic ∷ es) fs = refl

  pub has_panic-metrics-append :
      (ops : List (MetricOp F)) (es : List (Effect F Q))
      → has_panic (metrics ops ++ es) ≡ has_panic es
  unfolding has_panic
  has_panic-metrics-append [] es = refl
  has_panic-metrics-append (op ∷ ops) es = has_panic-metrics-append ops es

  pub sent-and_then_silent :
      (es fs : List (Effect F Q)) → sent fs ≡ [] → sent (and_then es fs) ≡ sent es
  unfolding and_then
  sent-and_then_silent es fs silent = elim (Bool-cases (has_panic es)) [
    | inl down ↦ rw down refl
    | inr up ↦ rw (up, sent-append es fs, silent) (append-nil _)
  ]

  pub has_panic-and_then :
      (es fs : List (Effect F Q)) → has_panic (and_then es fs) ≡ (has_panic es || has_panic fs)
  unfolding and_then
  has_panic-and_then es fs = elim (Bool-cases (has_panic es)) [
    | inl down ↦ rw (down, down) refl
    | inr up ↦ rw (up, has_panic-append es fs, up) refl
  ]

  pub and_then-append :
      (es fs : List (Effect F Q)) → has_panic es ≡ false → and_then es fs ≡ es ++ fs
  unfolding and_then
  and_then-append es fs up = rw up refl

  pub sent-and_then :
      (es fs : List (Effect F Q))
      → sent (and_then es fs) ≡ (if has_panic es then sent es else sent es ++ sent fs)
  unfolding and_then
  sent-and_then es fs = elim (Bool-cases (has_panic es)) [
    | inl down ↦ rw down refl
    | inr up ↦ rw up (sent-append es fs)
  ]

pub has_panic-metrics :
    (F Q : Type 0) (ops : List (MetricOp F)) → has_panic (metrics {Q = Q} ops) ≡ false
unfolding has_panic
has_panic-metrics F Q [] = refl
has_panic-metrics F Q (op ∷ ops) = has_panic-metrics F Q ops
