-- ===== src/Reconcile/Start/Blocks.antt =====
-- The effects of the cycles of Start as a sequence of blocks.
use pvc_chonker.Prelude.{List, [], ◌∷◌, Bool-cases, inl, inr}
use pvc_chonker.Prelude.Int.{pos, leb_ℤ}
use pvc_chonker.Libs.{Libs}
use pvc_chonker.StorageCache.{StorageClassCache, new_storage_class_cache}
use pvc_chonker.Reconcile.Types.{Effect, panic}
use pvc_chonker.Reconcile.Pvc.Blocks.{IsClosed}
use pvc_chonker.Reconcile.Start.{Reconciler, Round, env_of, cycle, ticks, start}
use pvc_chonker.Reconcile.Cycle.Blocks.{and_then-IsClosed, reconcile_all-IsClosed}

module _ {F Q S : Type 0} {P : List (Effect F Q) → Type 0} (closed : IsClosed S P) where
  module _ (lib : Libs F Q S) (r : Reconciler F Q) where
    pub cycle-IsClosed :
        (round : Round F Q S) (cache : StorageClassCache) → P (cycle lib r round cache).1
    unfolding cycle
    cycle-IsClosed round cache =
        reconcile_all-IsClosed closed (env_of lib r round) round.schedule round.response
          round.seconds round.finished round.list_pvcs round.volumes cache

    -- What holds of the blocks and of one list after another holds of all the cycles of the loop.
    pub ticks-IsClosed :
        (rounds : List (Round F Q S)) (cache : StorageClassCache) → P (ticks lib r rounds cache)
    unfolding ticks
    ticks-IsClosed [] cache = closed.nothing
    ticks-IsClosed (round ∷ rounds) cache =
        and_then-IsClosed closed _ _ (cycle-IsClosed round cache)
          (ticks-IsClosed rounds (cycle lib r round cache).0)

    -- So too of all effects of Start, where it holds of a panic.
    pub start-IsClosed :
        P (panic ∷ [])
        → (first : Round F Q S) (rounds : List (Round F Q S)) → P (start lib r first rounds)
    unfolding start
    start-IsClosed panics first rounds = elim (Bool-cases (leb_ℤ r.watch_interval (pos 0))) [
      | inl stopped ↦ rw stopped panics
      | inr runs ↦
          let after = cycle lib r first new_storage_class_cache in
          rw runs (
            and_then-IsClosed closed after.1 _ (cycle-IsClosed first new_storage_class_cache)
              (ticks-IsClosed rounds after.0))
    ]
