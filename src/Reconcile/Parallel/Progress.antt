-- ===== src/Reconcile/Parallel/Progress.antt =====
-- The goroutines never wait for one another for ever, and what they sent when all is done.
use pvc_chonker.Prelude.{
  true, false, Bool-cases, Option-cases, none, sym, ◌∙◌, Any, ℕ, ◌-◌, ◌<◌, some, List, [], ◌∷◌,
  ◌++◌, ◌≡◌, ◌⊎◌, refl, arith, map, inl, inr, All, total, ap,
}
use pvc_chonker.Prelude.Int.{ℤ, pos, negsuc}
use pvc_chonker.Kube.{Pvc}
use pvc_chonker.StorageCache.{StorageClassCache}
use pvc_chonker.Kubelet.Cache.{MetricsCache}
use pvc_chonker.Reconcile.Types.{Env, Effect, has_panic}
use pvc_chonker.Reconcile.Pvc.Panics.{panics, panics_of_requests}
use pvc_chonker.Reconcile.Sent.{sent}
use pvc_chonker.Reconcile.Cycle.Order.{sent_alone}
use pvc_chonker.Reconcile.Parallel.{
  Phase, waiting, starting, fetching, storing, answered, finished, Shared, Worker, System, advance,
  Step, pick, Steps, launch, parallelism, effects_of, is_down,
}
use pvc_chonker.Reconcile.Parallel.Known.{IsKnown, IsReached}
use pvc_chonker.Reconcile.Parallel.Invariant.{Inv, places_held, holds, pvc_of, Steps-Inv}

abbrev pub IsFinished : {F Q : Type 0} → Worker F Q → Type 0
IsFinished {F} {Q} worker = (effects : List (Effect F Q)) × (worker.phase ≡ finished effects)

-- A list of goroutines: all are finished, one holds a place, or one waits where none holds a place.
data Scan {F Q : Type 0} (workers : List (Worker F Q)) : Type 0 where
  all_finished : All IsFinished workers → Scan workers
  one_holds :
      (before after : List (Worker F Q)) (worker : Worker F Q)
      → workers ≡ before ++ worker ∷ after
      → places_held worker.phase ≡ 1
      → Scan workers
  one_waits :
      (before after : List (Worker F Q)) (worker : Worker F Q)
      → workers ≡ before ++ worker ∷ after
      → worker.phase ≡ waiting
      → total holds workers ≡ 0
      → Scan workers

module _ {F Q : Type 0} where
  total-holds-IsFinished :
      (workers : List (Worker F Q)) → All IsFinished workers → total holds workers ≡ 0
  total-holds-IsFinished [] h = refl
  total-holds-IsFinished (worker ∷ workers) ((effects, e), h) =
      rw e (omega (arith, total-holds-IsFinished workers h))

  Scan-cons :
      (worker : Worker F Q) (workers : List (Worker F Q)) (phase : Phase F Q)
      → worker.phase ≡ phase
      → Scan workers
      → Scan (worker ∷ workers)
  Scan-cons worker workers phase e (one_holds before after w there held) =
      one_holds (worker ∷ before) after w (ap (λ ws. worker ∷ ws) there) held
  Scan-cons worker workers waiting e (all_finished h) =
      one_waits [] workers worker refl e (rw e (omega (arith, total-holds-IsFinished workers h)))
  Scan-cons worker workers waiting e (one_waits before after w there idle none_held) =
      one_waits [] workers worker refl e (rw e (omega arith))
  Scan-cons worker workers (finished effects) e (all_finished h) = all_finished ((effects, e), h)
  Scan-cons worker workers (finished effects) e (one_waits before after w there idle none_held) =
      one_waits (worker ∷ before) after w (ap (λ ws. worker ∷ ws) there) idle (rw e (omega arith))
  Scan-cons worker workers starting e s = one_holds [] workers worker refl (rw e refl)
  Scan-cons worker workers (fetching config name) e s = one_holds [] workers worker refl (rw e refl)
  Scan-cons worker workers (storing config name sc) e s =
      one_holds [] workers worker refl (rw e refl)
  Scan-cons worker workers (answered config b calls) e s =
      one_holds [] workers worker refl (rw e refl)

  Scan-of : (workers : List (Worker F Q)) → Scan workers
  Scan-of [] = all_finished tt
  Scan-of (worker ∷ workers) = Scan-cons worker workers worker.phase refl (Scan-of workers)

  -- what the goroutines have sent, in the order of their PVCs
  pub sent_by : List (Worker F Q) → List (Pvc Q)
  sent_by [] = []
  sent_by (worker ∷ workers) = elim worker.phase [
    | finished effects ↦ sent effects ++ sent_by workers
    | _ ↦ sent_by workers
  ]

module _ {F Q S : Type 0} (env : Env F Q S) (volumes : MetricsCache F) where
  advance_of_holds :
      (shared : Shared) (pvc : Pvc Q) (phase : Phase F Q)
      → places_held phase ≡ 1
      → (next : Shared × Phase F Q) × (advance env volumes shared pvc phase ≡ some next)
  unfolding advance
  advance_of_holds shared pvc waiting h = absurd (omega arith)
  advance_of_holds shared pvc starting h = (_, refl)
  advance_of_holds shared pvc (fetching config name) h = (_, refl)
  advance_of_holds shared pvc (storing config name sc) h = (_, refl)
  advance_of_holds shared pvc (answered config b calls) h = (_, refl)
  advance_of_holds shared pvc (finished effects) h = absurd (omega arith)

  advance_of_waiting :
      (shared : Shared) (pvc : Pvc Q)
      → 0 < shared.free
      → (next : Shared × Phase F Q) × (advance env volumes shared pvc waiting ≡ some next)
  unfolding advance
  advance_of_waiting shared pvc h =
      ((record shared { free = shared.free - 1 }, starting), ground arith)

  -- A goroutine that has panicked, so that the program has ended: its PVC has no map of requests.
  abbrev pub HasPanicked : Worker F Q → Type 0
  HasPanicked worker =
      (effects : List (Effect F Q)) × (worker.phase ≡ finished effects)
      × (has_panic effects ≡ true)
      × (worker.pvc.requests ≡ none)

  no_requests : (pvc : Pvc Q) → panics env volumes pvc ≡ true → pvc.requests ≡ none
  no_requests pvc down = elim (Option-cases pvc.requests) [
    | inl nil_map ↦ nil_map
    | inr (requests, e) ↦ absurd (ground (arith, panics_of_requests env volumes pvc requests e))
  ]

  HasPanicked-of :
      (worker : Worker F Q) (phase : Phase F Q)
      → worker.phase ≡ phase
      → IsReached env volumes worker.pvc phase
      → has_panic (effects_of phase) ≡ true
      → HasPanicked worker
  unfolding has_panic
  HasPanicked-of worker waiting e r down = cc
  HasPanicked-of worker starting e r down = cc
  HasPanicked-of worker (fetching config name) e r down = cc
  HasPanicked-of worker (storing config name sc) e r down = cc
  HasPanicked-of worker (answered config b calls) e r down = cc
  HasPanicked-of worker (finished effects) e (sends, same) down =
      (effects, e, down, no_requests worker.pvc (sym same ∙ down))

  Any-HasPanicked :
      (workers : List (Worker F Q))
      → All (λ w. IsReached env volumes w.pvc w.phase) workers
      → is_down workers ≡ true
      → Any HasPanicked workers
  unfolding is_down
  Any-HasPanicked [] r down = cc
  Any-HasPanicked (worker ∷ workers) (reached, r) down =
      elim (Bool-cases (has_panic (effects_of worker.phase))) [
        | inl here ↦ inl (HasPanicked-of worker worker.phase refl reached here)
        | inr other ↦ inr (Any-HasPanicked workers r (rw other at down))
      ]

  -- While a place exists and no goroutine has panicked, every state of the invariant is finished or
  -- has a next step.
  progress :
      (parallel : ℕ) (pvcs : List (Pvc Q)) (s : System F Q)
      → 0 < parallel
      → is_down s.workers ≡ false
      → Inv env volumes parallel pvcs s
      → All IsFinished s.workers ⊎ ((t : System F Q) × Step env volumes s t)
  progress parallel pvcs s room up inv = elim (Scan-of s.workers) [
    | all_finished h ↦ inl h
    | one_holds before after w there held ↦
        let (next, e) = advance_of_holds s.shared w.pvc w.phase held in
        inr (_, pick before after w up there e)
    | one_waits before after w there idle none_held ↦
        let (next, e) = advance_of_waiting s.shared w.pvc (omega (arith, inv.places)) in
        let free : advance env volumes s.shared w.pvc w.phase ≡ some next = rw idle e in
        inr (_, pick before after w up there free)
  ]

  finished_reached :
      (worker : Worker F Q) (effects : List (Effect F Q))
      → worker.phase ≡ finished effects
      → IsReached env volumes worker.pvc worker.phase
      → IsReached env volumes worker.pvc (finished effects)
  finished_reached worker effects e reached = rw e at reached

  sent_by-IsFinished :
      (workers : List (Worker F Q))
      → All IsFinished workers
      → All (λ w. IsReached env volumes w.pvc w.phase) workers
      → sent_by workers ≡ sent_alone env volumes (map pvc_of workers)
  unfolding sent_by sent_alone
  sent_by-IsFinished [] h r = refl
  sent_by-IsFinished (worker ∷ workers) ((effects, e), h) (reached, r) =
      let (sends, same) = finished_reached worker effects e reached in
      rw (e, sends, sent_by-IsFinished workers h r) refl

  parallelism-positive : (max_parallel : ℤ) → 0 < parallelism max_parallel
  unfolding parallelism
  parallelism-positive (pos n) = ground arith
  parallelism-positive (negsuc n) = ground arith

  -- How a run of the goroutines can end: one has panicked, and with it the program, or all are
  -- finished and have sent what each of their PVCs alone would send.
  abbrev pub IsEnd : List (Pvc Q) → System F Q → Type 0
  IsEnd pvcs t =
      Any HasPanicked t.workers
      ⊎ (All IsFinished t.workers × (sent_by t.workers ≡ sent_alone env volumes pvcs))

  -- With the places that Start provides, whatever MaxParallel says, there is no deadlock, and a
  -- cycle that can go no further is done: from a start with a cache that holds only what the API
  -- server answers, each state that the goroutines reach, in any interleaving, has a next step, or
  -- a goroutine has panicked whose PVC has no map of requests, which ended the program, or every
  -- goroutine is finished and they have sent what each of their PVCs alone would send.
  pub Steps-done :
      (cache : StorageClassCache) (max_parallel : ℤ) (pvcs : List (Pvc Q)) {n : ℕ} {t : System F Q}
      → IsKnown env volumes cache
      → Steps env volumes (launch cache (parallelism max_parallel) pvcs) n t
      → ((u : System F Q) × Step env volumes t u) ⊎ IsEnd pvcs t
  Steps-done cache max_parallel pvcs {t = t} known steps =
      let parallel = parallelism max_parallel in
      let inv = Steps-Inv env volumes cache parallel pvcs known steps in
      elim (Bool-cases (is_down t.workers)) [
        | inl down ↦ inr (inl (Any-HasPanicked t.workers inv.reached down))
        | inr up ↦ elim (progress parallel pvcs t (parallelism-positive max_parallel) up inv) [
          | inr next ↦ inl next
          | inl h ↦ inr (inr (h, rw (← inv.same) (sent_by-IsFinished t.workers h inv.reached)))
        ]
      ]
