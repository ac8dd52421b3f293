-- ===== src/Reconcile/Start/Rounds.antt =====
-- What the program asks of the API server over all its cycles.
use pvc_chonker.Prelude.{
  Result-cases, Bool, false, if◌then◌else◌, Bool-cases, List, [], ◌∷◌, ◌++◌, ok, err, select, ◌≡◌,
  refl, inl, inr,
}
use pvc_chonker.Prelude.Int.{pos, leb_ℤ}
use pvc_chonker.Kube.{Pvc, ApiError}
use pvc_chonker.Kubelet.Fetch.{FetchError}
use pvc_chonker.Libs.{Libs}
use pvc_chonker.StorageCache.{StorageClassCache, new_storage_class_cache}
use pvc_chonker.Reconcile.Sent.{sent, sent-metrics, sent-metrics-append}
use pvc_chonker.Reconcile.Cycle.{is_managed, reconcile_all}
use pvc_chonker.Reconcile.Cycle.Order.{sent_in_turn, halts, sent-reconcile_all, halts-reconcile_all}
use pvc_chonker.Reconcile.Types.{has_panic}
use pvc_chonker.Reconcile.Panics.{
  or_false, has_panic-metrics, has_panic-metrics-append, has_panic-and_then, sent-and_then,
  sent-and_then_silent,
}
use pvc_chonker.Reconcile.Start.{Reconciler, Round, env_of, cycle, ticks, start}

module _ {F Q S : Type 0} (lib : Libs F Q S) (r : Reconciler F Q) where
  -- What one cycle by itself asks for: what its managed PVCs would send each alone, in the order of
  -- the schedule until one of them panics, or nothing where the PVCs are not listed or the metrics
  -- not fetched.
  abbrev pub sent_in : Round F Q S → List (Pvc Q)
  sent_in round = elim round.list_pvcs [
    | err e ↦ []
    | ok pvcs ↦ elim round.volumes [
      | err e ↦ []
      | ok volumes ↦
          sent_in_turn (env_of lib r round) volumes
            (round.schedule (select (is_managed (env_of lib r round)) pvcs))
    ]
  ]

  -- The cycle by itself ends in a panic: one of its managed PVCs does, with nothing cached.
  abbrev pub halts_in : Round F Q S → Bool
  halts_in round = elim round.list_pvcs [
    | err e ↦ false
    | ok pvcs ↦ elim round.volumes [
      | err e ↦ false
      | ok volumes ↦
          halts (env_of lib r round) volumes
            (round.schedule (select (is_managed (env_of lib r round)) pvcs))
    ]
  ]

  -- what the cycles by themselves ask for, up to the first that ends in a panic
  abbrev pub sent_in_all : List (Round F Q S) → List (Pvc Q)
  sent_in_all [] = []
  sent_in_all (round ∷ rounds) =
      let rest = sent_in_all rounds in
      if halts_in round then sent_in round else sent_in round ++ rest

  sent_unlisted :
      (round : Round F Q S) (cache : StorageClassCache) (e : ApiError)
      → sent
          (reconcile_all
            (env_of lib r round)
            round.schedule
            round.response
            round.seconds
            round.finished
            (err e)
            round.volumes
            cache).1
        ≡ []
  unfolding reconcile_all
  sent_unlisted round cache e = sent-metrics _

  sent_unmeasured :
      (round : Round F Q S) (cache : StorageClassCache) (pvcs : List (Pvc Q)) (e : FetchError)
      → sent
          (reconcile_all
            (env_of lib r round)
            round.schedule
            round.response
            round.seconds
            round.finished
            (ok pvcs)
            (err e)
            cache).1
        ≡ []
  unfolding reconcile_all
  sent_unmeasured round cache pvcs e =
      simp (sent-metrics-append, sent-and_then_silent, sent-metrics) refl

  -- What one cycle sends does not depend on the cache that it finds.
  pub sent-cycle :
      (round : Round F Q S) (cache : StorageClassCache)
      → sent (cycle lib r round cache).1 ≡ sent_in round
  unfolding cycle
  sent-cycle round cache = elim (Result-cases round.list_pvcs) [
    | inl (e, unlisted) ↦ rw unlisted (sent_unlisted round cache e)
    | inr (pvcs, listed) ↦ elim (Result-cases round.volumes) [
      | inl (e, unmeasured) ↦ rw (listed, unmeasured) (sent_unmeasured round cache pvcs e)
      | inr (volumes, measured) ↦
          rw (listed, measured)
            (sent-reconcile_all (env_of lib r round) volumes round.schedule round.response
              round.seconds round.finished FetchError cache pvcs)
    ]
  ]

  halts_unlisted :
      (round : Round F Q S) (cache : StorageClassCache) (e : ApiError)
      → has_panic
          (reconcile_all
            (env_of lib r round)
            round.schedule
            round.response
            round.seconds
            round.finished
            (err e)
            round.volumes
            cache).1
        ≡ false
  unfolding reconcile_all
  halts_unlisted round cache e = has_panic-metrics F Q _

  halts_unmeasured :
      (round : Round F Q S) (cache : StorageClassCache) (pvcs : List (Pvc Q)) (e : FetchError)
      → has_panic
          (reconcile_all
            (env_of lib r round)
            round.schedule
            round.response
            round.seconds
            round.finished
            (ok pvcs)
            (err e)
            cache).1
        ≡ false
  unfolding reconcile_all
  halts_unmeasured round cache pvcs e =
      simp (has_panic-metrics-append, has_panic-and_then, has_panic-metrics, or_false) refl

  -- Whether a cycle ends in a panic does not depend on the cache that it finds.
  halts-cycle :
      (round : Round F Q S) (cache : StorageClassCache)
      → has_panic (cycle lib r round cache).1 ≡ halts_in round
  unfolding cycle
  halts-cycle round cache = elim (Result-cases round.list_pvcs) [
    | inl (e, unlisted) ↦ rw unlisted (halts_unlisted round cache e)
    | inr (pvcs, listed) ↦ elim (Result-cases round.volumes) [
      | inl (e, unmeasured) ↦ rw (listed, unmeasured) (halts_unmeasured round cache pvcs e)
      | inr (volumes, measured) ↦
          rw (listed, measured)
            (halts-reconcile_all (env_of lib r round) volumes round.schedule round.response
              round.seconds round.finished FetchError cache pvcs)
    ]
  ]

  sent-ticks :
      (rounds : List (Round F Q S)) (cache : StorageClassCache)
      → sent (ticks lib r rounds cache) ≡ sent_in_all rounds
  unfolding ticks sent
  sent-ticks [] cache = refl
  sent-ticks (round ∷ rounds) cache =
      rw
        (
          sent-and_then,
          halts-cycle round cache,
          sent-cycle round cache,
          sent-ticks rounds (cycle lib r round cache).0,
        )
        refl

  -- Over all its cycles the program asks the API server for what each cycle by itself would, up to
  -- and with the first cycle in which a PVC's goroutine panics, which ends the program; within that
  -- cycle, for what the PVCs up to that one send. Otherwise no cycle changes what a later one
  -- sends, whatever the cache holds, and a cycle that cannot list the PVCs or cannot fetch the
  -- metrics sends nothing. Where the interval of the cycles is not positive, nothing is ever sent.
  pub sent-start :
      (first : Round F Q S) (rounds : List (Round F Q S))
      → sent (start lib r first rounds)
        ≡ (if leb_ℤ r.watch_interval (pos 0) then [] else sent_in_all (first ∷ rounds))
  unfolding start
  sent-start first rounds = elim (Bool-cases (leb_ℤ r.watch_interval (pos 0))) [
    | inl no_ticker ↦ rw no_ticker (unfold sent in refl)
    | inr ticker ↦
        rw
          (
            ticker,
            sent-and_then,
            halts-cycle first new_storage_class_cache,
            sent-cycle first new_storage_class_cache,
            sent-ticks rounds (cycle lib r first new_storage_class_cache).0,
          )
          refl
  ]
