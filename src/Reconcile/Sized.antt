-- ===== src/Reconcile/Sized.antt =====
-- The size that reconcilePVC asks for.
use pvc_chonker.Prelude.{
  some, false, [], ◌∷◌, ℕ, ◌+◌, ◌-◌, ◌^◌, ◌≤◌, true, ◌≡◌, ◌≢◌, ◌⊎◌, inl, inr, ok, arith, Ordering,
  Bool-cases,
}
use pvc_chonker.Prelude.Int.{ℤ, pos}
use pvc_chonker.Kube.{Pvc}
use pvc_chonker.Libs.{QuantityLaws}
use pvc_chonker.Annotations.Size.{calculate_new_size, increase_bytes, exceeds_max_size}
use pvc_chonker.Annotations.Size.Bounds.{gib, IsRoundedUp, IsLarger, calculate_new_size-IsRoundedUp}
use pvc_chonker.StorageCache.{StorageClassCache}
use pvc_chonker.Kubelet.Cache.{MetricsCache}
use pvc_chonker.Reconcile.Types.{Env, storage_of}
use pvc_chonker.Reconcile.Reported.{storage_of-resized}
use pvc_chonker.Reconcile.Safety.{sent-reconcile_pvc_iff}
use pvc_chonker.Annotations.Policies.{resolve_pvc_config}
use pvc_chonker.Annotations.Types.{PvcConfig}
use pvc_chonker.Reconcile.Pvc.{reconcile_pvc}
use pvc_chonker.Reconcile.Sent.{sent}

module _ {F Q S : Type 0} (env : Env F Q S) (laws : QuantityLaws env.lib) (volumes : MetricsCache F)
    (cache : StorageClassCache) (pvc copy : Pvc Q) where
  within_limit :
      (config : PvcConfig F Q) (q : Q)
      → exceeds_max_size env.lib (some config) q ≡ false
      → (env.lib.is_zero config.max_size ≡ true) ⊎ (env.lib.cmp q config.max_size ≢ Ordering.gt)
  unfolding exceeds_max_size
  within_limit config q e = elim (Bool-cases (env.lib.is_zero config.max_size)) [
    | inl unlimited ↦ inl unlimited
    | inr limited ↦ inr (λ over. ground arith)
  ]

  -- For quantities with their laws: if reconcilePVC sends `copy` for a PVC with this configuration,
  -- the capacity of the PVC is `n` bytes, the increase reads as `i` bytes, `k` is the larger of `i`
  -- and MinScaleUp, and the sum of `n` and `k` leaves one GiB below 2^63, then `copy` asks for the
  -- least multiple of one GiB that is at least `n + k` bytes, and that is not above the maximum
  -- size, unless the maximum is zero.
  pub storage_of-IsRoundedUp :
      (config : PvcConfig F Q) (n k : ℕ) (i : ℤ)
      → resolve_pvc_config env.lib env.list_policies pvc env.global ≡ ok config
      → sent (reconcile_pvc env volumes cache pvc).1 ≡ copy ∷ []
      → env.lib.value (storage_of env.lib pvc.capacity) ≡ pos n
      → increase_bytes env.lib config (storage_of env.lib pvc.capacity) ≡ ok i
      → IsLarger i (env.lib.value config.min_scale_up) k
      → n + k + gib ≤ 2 ^ 63 - 1
      → ((r : ℕ) × IsRoundedUp (n + k) r
          × (env.lib.value (storage_of env.lib copy.requests) ≡ pos r))
        × ((env.lib.is_zero config.max_size ≡ true)
            ⊎ (env.lib.cmp (storage_of env.lib copy.requests) config.max_size ≢ Ordering.gt))
  storage_of-IsRoundedUp config n k i resolved one v e l fits =
      let x = (sent-reconcile_pvc_iff env volumes cache pvc copy).1.0 one in
      let mine : x.config ≡ config = cc x.resolved in
      let asked = storage_of-resized env pvc copy x.sends.new_size x.sends.copied in
      let (r, rounded, computed) =
        calculate_new_size-IsRoundedUp env.lib config (storage_of env.lib pvc.capacity) n k i v e l
          fits in
      let sized : calculate_new_size env.lib (some config) (storage_of env.lib pvc.capacity)
          ≡ ok x.sends.new_size =
        rw (← mine) x.sends.sized in
      let same : x.sends.new_size ≡ env.lib.new_quantity (pos r) = cc sized in
      (
        (r, rounded, rw (asked, same) (laws.value_new (pos r))),
        within_limit config _ (rw (← mine, asked) x.sends.within),
      )
