-- ===== src/Reconcile/Start.antt =====
-- Start: the loop of cycles, one at once and one for each tick until the context is done. What a
-- cycle meets outside is a Round; that the context is done ends the list of rounds.
pub mod Rounds
pub mod DryRun
pub mod Blocks
pub mod Typed
pub mod Counted
pub mod Delivered
use pvc_chonker.Prelude.{
  String, Bool, true, false, Option, none, some, List, [], ◌∷◌, ◌++◌, Result, ok, err,
  if◌then◌else◌,
}
use pvc_chonker.Prelude.Int.{ℤ, pos, leb_ℤ}
use pvc_chonker.Kube.{Pvc, Policy, StorageClass, ApiError}
use pvc_chonker.Libs.{Libs}
use pvc_chonker.Annotations.Types.{GlobalConfig}
use pvc_chonker.StorageCache.{StorageClassCache, new_storage_class_cache}
use pvc_chonker.Kubelet.Cache.{MetricsCache}
use pvc_chonker.Kubelet.Fetch.{FetchError}
use pvc_chonker.Reconcile.Types.{Env, Effect, panic, and_then}
use pvc_chonker.Reconcile.Cycle.{reconcile_all}

-- The settings of a PersistentVolumeClaimReconciler.
pub record Reconciler (F Q : Type 0) : Type 0 where
  pub global_config : GlobalConfig F Q
  pub watch_interval : ℤ
  pub dry_run : Bool
  pub max_parallel : ℤ

-- The answers of the API server, of the kubelets and of the clock during one cycle, and the order
-- in which its goroutines run.
pub record Round (F Q S : Type 0) : Type 0 where
  pub list_policies : String → Result ApiError (List (Policy Q S))
  pub get_storage_class : String → Result ApiError StorageClass
  pub update : Pvc Q → Option ApiError
  pub now : ℤ
  pub stamp : ℤ
  pub list_pvcs : Result ApiError (List (Pvc Q))
  pub volumes : Result FetchError (MetricsCache F)
  pub schedule : List (Pvc Q) → List (Pvc Q)
  pub response : F
  pub seconds : F
  pub finished : F

module _ {F Q S : Type 0} (lib : Libs F Q S) (r : Reconciler F Q) where
  abbrev pub env_of : Round F Q S → Env F Q S
  env_of round = record {
    lib = lib;
    global = r.global_config;
    dry_run = r.dry_run;
    list_policies = round.list_policies;
    get_storage_class = round.get_storage_class;
    update = round.update;
    now = round.now;
    stamp = round.stamp;
  }

  -- r.reconcileAll(ctx), on r.storageCache
  unfoldable pub cycle : Round F Q S → StorageClassCache → StorageClassCache × List (Effect F Q)
  cycle round cache =
      reconcile_all (env_of round) round.schedule round.response round.seconds round.finished
        round.list_pvcs round.volumes cache

  -- the loop over the ticks, until a panic ends the program
  unfoldable pub ticks : List (Round F Q S) → StorageClassCache → List (Effect F Q)
  ticks [] cache = []
  ticks (round ∷ rounds) cache =
      let (cache', effects) = cycle round cache in and_then effects (ticks rounds cache')

  -- NewTicker panics on an interval that is not positive.
  unfoldable pub start : Round F Q S → List (Round F Q S) → List (Effect F Q)
  start first rounds =
      let (cache, effects) = cycle first new_storage_class_cache in
      if leb_ℤ r.watch_interval (pos 0) then panic ∷ [] else and_then effects (ticks rounds cache)
