-- ===== src/Reconcile/Parallel/Ends.antt =====
-- Every run of the goroutines of a cycle comes to an end.
use pvc_chonker.Prelude.{ℕ, zero, suc, ◌+◌, ◌*◌, ◌≤◌, List, length, arith, inl, inr}
use pvc_chonker.Prelude.Int.{ℤ}
use pvc_chonker.Kube.{Pvc}
use pvc_chonker.StorageCache.{StorageClassCache}
use pvc_chonker.Kubelet.Cache.{MetricsCache}
use pvc_chonker.Reconcile.Types.{Env}
use pvc_chonker.Reconcile.Parallel.{System, Step, Steps, start, later, launch, parallelism}
use pvc_chonker.Reconcile.Parallel.Known.{IsKnown}
use pvc_chonker.Reconcile.Parallel.Terminates.{Steps-le}
use pvc_chonker.Reconcile.Parallel.Progress.{IsEnd, Steps-done}

module _ {F Q S : Type 0} (env : Env F Q S) (volumes : MetricsCache F) where
  Steps-prepend :
      {s t u : System F Q} {n : ℕ}
      → Step env volumes s t
      → Steps env volumes t n u
      → Steps env volumes s (suc n) u
  Steps-prepend st start = later start st
  Steps-prepend st (later steps last) = later (Steps-prepend st steps) last

  module _ (cache : StorageClassCache) (max_parallel : ℤ) (pvcs : List (Pvc Q))
      (known : IsKnown env volumes cache) where
    -- what a run that stands at `t` after `n` steps can still come to
    abbrev pub Continues : ℕ → System F Q → Type 0
    Continues n t =
        (k : ℕ) × (u : System F Q) × Steps env volumes t k u
        × (n + k ≤ 5 * length pvcs)
        × IsEnd env volumes pvcs u

    continue_for :
        (left n : ℕ) (t : System F Q)
        → 5 * length pvcs ≤ n + left
        → Steps env volumes (launch cache (parallelism max_parallel) pvcs) n t
        → Continues n t
    continue_for zero n t enough steps =
        let most = Steps-le env volumes cache (parallelism max_parallel) pvcs steps in
        elim (Steps-done env volumes cache max_parallel pvcs known steps) [
          | inr end ↦ (0, t, start, omega (arith, most), end)
          | inl (u, st) ↦
              let over =
                Steps-le env volumes cache (parallelism max_parallel) pvcs (later steps st) in
              absurd (omega (arith, over))
        ]
    continue_for (suc left) n t enough steps =
        let most = Steps-le env volumes cache (parallelism max_parallel) pvcs steps in
        elim (Steps-done env volumes cache max_parallel pvcs known steps) [
          | inr end ↦ (0, t, start, omega (arith, most), end)
          | inl (u, st) ↦
              let (k, last, rest, most', end) =
                continue_for left (suc n) u (omega arith) (later steps st) in
              (suc k, last, Steps-prepend st rest, omega arith, end)
        ]

    -- Every run of the goroutines, in any interleaving, can be continued to an end, and takes at
    -- most five steps for each PVC with that: from a start with a cache that holds only what the
    -- API server answers and with the places that Start provides, whatever MaxParallel says, each
    -- state that is reached leads to one in which a goroutine has panicked whose PVC has no map of
    -- requests, or all goroutines are finished and have sent what each of their PVCs alone would
    -- send.
    pub Steps-ends :
        {n : ℕ} {t : System F Q}
        → Steps env volumes (launch cache (parallelism max_parallel) pvcs) n t
        → Continues n t
    Steps-ends {n} {t} steps = continue_for (5 * length pvcs) n t (omega arith) steps
