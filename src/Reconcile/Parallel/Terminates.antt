-- ===== src/Reconcile/Parallel/Terminates.antt =====
-- The goroutines cannot take steps for ever.
use pvc_chonker.Prelude.{
  Result-cases, ℕ, ◌+◌, ◌*◌, ◌≤◌, ◌<◌, Option, none, some, List, [], ◌∷◌, ◌≡◌, arith, map, inl, inr,
  total, total-replace, length,
}
use pvc_chonker.Kube.{Pvc}
use pvc_chonker.Annotations.Types.{PvcConfig}
use pvc_chonker.Annotations.Policies.{resolve_pvc_config}
use pvc_chonker.StorageCache.{StorageClassCache}
use pvc_chonker.Kubelet.Cache.{MetricsCache}
use pvc_chonker.Reconcile.Types.{Env}
use pvc_chonker.Reconcile.Parallel.{
  Phase, waiting, starting, fetching, storing, answered, finished, Shared, Worker, System,
  give_back, look_up, begin, fetch, advance, Step, pick, Steps, start, later, launched, launch,
}

-- the steps that are left at most
abbrev steps_left : {F Q : Type 0} → Phase F Q → ℕ
steps_left waiting = 5
steps_left starting = 4
steps_left (fetching config name) = 3
steps_left (storing config name sc) = 2
steps_left (answered config b calls) = 1
steps_left (finished effects) = 0

abbrev worker_steps : {F Q : Type 0} → Worker F Q → ℕ
worker_steps worker = steps_left worker.phase

module _ {F Q S : Type 0} (env : Env F Q S) (volumes : MetricsCache F) where
  look_up-steps :
      (shared : Shared) (config : PvcConfig F Q) (name : Option _)
      → steps_left (look_up env volumes shared config name).1 ≤ 3
  unfolding look_up
  look_up-steps shared config none = omega arith
  look_up-steps shared config (some name) = ground arith

  begin-steps : (shared : Shared) (pvc : Pvc Q) → steps_left (begin env volumes shared pvc).1 ≤ 3
  unfolding begin give_back
  begin-steps shared pvc =
      elim (Result-cases (resolve_pvc_config env.lib env.list_policies pvc env.global)) [
        | inl (e, failed) ↦ ground arith
        | inr (config, resolved) ↦
            ground (arith, look_up-steps shared config pvc.storage_class_name)
      ]

  advance-steps :
      (shared : Shared) (pvc : Pvc Q) (phase : Phase F Q) (next : Shared × Phase F Q)
      → advance env volumes shared pvc phase ≡ some next
      → steps_left next.1 < steps_left phase
  unfolding advance give_back fetch
  advance-steps shared pvc waiting next e = ground arith
  advance-steps shared pvc starting next e = ground (arith, begin-steps shared pvc)
  advance-steps shared pvc (fetching config name) next e = ground arith
  advance-steps shared pvc (storing config name sc) next e = ground arith
  advance-steps shared pvc (answered config b calls) next e = ground arith
  advance-steps shared pvc (finished effects) next e = cc

  Step-steps :
      {s t : System F Q}
      → Step env volumes s t
      → total worker_steps t.workers < total worker_steps s.workers
  Step-steps {s} (pick before after worker {shared} {phase} up where_it_stands e) =
      rw where_it_stands (
        omega (
          arith,
          total-replace worker_steps before worker (record worker { phase = phase }) after,
          advance-steps s.shared worker.pvc worker.phase (shared, phase) e,
        ))

  Steps-steps :
      {s : System F Q} {n : ℕ} {t : System F Q}
      → Steps env volumes s n t
      → n + total worker_steps t.workers ≤ total worker_steps s.workers
  Steps-steps start = omega arith
  Steps-steps (later steps st) = omega (arith, Steps-steps steps, Step-steps st)

  total-launched :
      (pvcs : List (Pvc Q)) → total (worker_steps {F = F}) (map launched pvcs) ≡ 5 * length pvcs
  total-launched [] = omega arith
  total-launched (pvc ∷ pvcs) = omega (arith, total-launched pvcs)

  -- In any interleaving the goroutines take at most five steps for each PVC, so every run ends.
  pub Steps-le :
      (cache : StorageClassCache) (parallel : ℕ) (pvcs : List (Pvc Q)) {n : ℕ} {t : System F Q}
      → Steps env volumes (launch cache parallel pvcs) n t
      → n ≤ 5 * length pvcs
  Steps-le cache parallel pvcs steps = omega (arith, Steps-steps steps, total-launched pvcs)
