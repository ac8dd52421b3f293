-- ===== src/Reconcile/Parallel/Invariant.antt =====
-- What holds in every state that the goroutines reach.
use pvc_chonker.Prelude.{
  Result-cases, ℕ, ◌+◌, Option, none, some, List, [], ◌∷◌, ◌≡◌, refl, arith, ◌∙◌, map, inl, inr,
  All, All-middle, All-replace, total, total-replace, map-replace, ap, lookup,
}
use pvc_chonker.Kube.{Pvc}
use pvc_chonker.Annotations.Types.{PvcConfig}
use pvc_chonker.Annotations.Policies.{resolve_pvc_config}
use pvc_chonker.StorageCache.{StorageClassCache, get, get_fs_type, clear}
use pvc_chonker.Kubelet.Cache.{MetricsCache}
use pvc_chonker.Reconcile.Types.{Env}
use pvc_chonker.Reconcile.Parallel.{
  Phase, waiting, starting, fetching, storing, answered, finished, Shared, Worker, System,
  give_back, look_up, begin, fetch, advance, Step, pick, Steps, start, later, launched, launch,
}
use pvc_chonker.Reconcile.Parallel.Known.{IsKnown, IsReached, advance-IsKept}

-- 1 where a place of the semaphore is held
abbrev pub places_held : {F Q : Type 0} → Phase F Q → ℕ
places_held waiting = 0
places_held starting = 1
places_held (fetching config name) = 1
places_held (storing config name sc) = 1
places_held (answered config b calls) = 1
places_held (finished effects) = 0

abbrev pub holds : {F Q : Type 0} → Worker F Q → ℕ
holds worker = places_held worker.phase

abbrev pub pvc_of : {F Q : Type 0} → Worker F Q → Pvc Q
pvc_of worker = worker.pvc

module _ {F Q S : Type 0} (env : Env F Q S) (volumes : MetricsCache F) where
  look_up-places :
      (shared : Shared) (config : PvcConfig F Q) (name : Option _)
      → let next = look_up env volumes shared config name in
        next.0.free + places_held next.1 ≡ shared.free + 1
  unfolding look_up
  look_up-places shared config none = refl
  look_up-places shared config (some name) = ground arith

  begin-places :
      (shared : Shared) (pvc : Pvc Q)
      → let next = begin env volumes shared pvc in
        next.0.free + places_held next.1 ≡ shared.free + 1
  unfolding begin give_back
  begin-places shared pvc =
      elim (Result-cases (resolve_pvc_config env.lib env.list_policies pvc env.global)) [
        | inl (e, failed) ↦ ground arith
        | inr (config, resolved) ↦
            ground (arith, look_up-places shared config pvc.storage_class_name)
      ]

  fetch-places :
      (shared : Shared) (config : PvcConfig F Q) (name : _)
      → let next = fetch env volumes shared config name in
        next.0.free + places_held next.1 ≡ shared.free + 1
  unfolding fetch
  fetch-places shared config name = ground arith

  -- A step takes a place, keeps it, or gives it back.
  advance-places :
      (shared : Shared) (pvc : Pvc Q) (phase : Phase F Q) (next : Shared × Phase F Q)
      → advance env volumes shared pvc phase ≡ some next
      → next.0.free + places_held next.1 ≡ shared.free + places_held phase
  unfolding advance give_back
  advance-places shared pvc waiting next e = ground arith
  advance-places shared pvc starting next e = ground (arith, begin-places shared pvc)
  advance-places shared pvc (fetching config name) next e =
      ground (arith, fetch-places shared config name)
  advance-places shared pvc (storing config name sc) next e = ground arith
  advance-places shared pvc (answered config b calls) next e = ground arith
  advance-places shared pvc (finished effects) next e = cc

  -- The places of the semaphore add up, the cache holds what the API server answers, each goroutine
  -- stands where its PVC leads, and the goroutines are those of the PVCs.
  pub record Inv (parallel : ℕ) (pvcs : List (Pvc Q)) (s : System F Q) : Type 0 where
    pub places : s.shared.free + total holds s.workers ≡ parallel
    pub known : IsKnown env volumes s.shared.cache
    pub reached : All (λ w. IsReached env volumes w.pvc w.phase) s.workers
    pub same : map pvc_of s.workers ≡ pvcs

  Step-Inv :
      {parallel : ℕ} {pvcs : List (Pvc Q)} {s t : System F Q}
      → Step env volumes s t
      → Inv parallel pvcs s
      → Inv parallel pvcs t
  Step-Inv {parallel} {pvcs} {s} (pick before after worker {shared} {phase} up where_it_stands e)
        inv =
      let moved : Worker F Q = record worker { phase = phase } in
      let all = rw where_it_stands at (inv.reached) in
      let (known, reached) =
        advance-IsKept env volumes worker.pvc s.shared inv.known worker.phase (shared, phase) e
          (All-middle (λ w. IsReached env volumes w.pvc w.phase) before worker after all) in
      record {
        places = omega (
          arith,
          inv.places,
          rw where_it_stands at (inv.places),
          total-replace holds before worker moved after,
          advance-places s.shared worker.pvc worker.phase (shared, phase) e,
        );
        known = known;
        reached = All-replace _ before worker moved after all reached;
        same = map-replace pvc_of before moved worker after refl ∙ rw where_it_stands at (inv.same);
      }

  total-holds-launched : (pvcs : List (Pvc Q)) → total (holds {F = F}) (map launched pvcs) ≡ 0
  total-holds-launched [] = refl
  total-holds-launched (pvc ∷ pvcs) = omega (arith, total-holds-launched pvcs)

  IsReached-launched :
      (pvcs : List (Pvc Q)) → All (λ w. IsReached env volumes w.pvc w.phase) (map launched pvcs)
  IsReached-launched [] = tt
  IsReached-launched (pvc ∷ pvcs) = (tt, IsReached-launched pvcs)

  map-pvc_of-launched : (pvcs : List (Pvc Q)) → map (pvc_of {F = F}) (map launched pvcs) ≡ pvcs
  map-pvc_of-launched [] = refl
  map-pvc_of-launched (pvc ∷ pvcs) = ap (λ rest. pvc ∷ rest) (map-pvc_of-launched pvcs)

  -- From a start with a cache that holds only what the API server answers, such as the one that was
  -- just cleared, every state that the goroutines reach, in any interleaving, has this invariant:
  -- as many places of the semaphore are held as are not free, so never more than there are, the
  -- cache holds only what the API server answers, each goroutine stands where its PVC leads, there
  -- is one goroutine for each PVC, and one that is finished has sent what its PVC alone would send,
  -- and has panicked exactly if that would.
  pub Steps-Inv :
      (cache : StorageClassCache) (parallel : ℕ) (pvcs : List (Pvc Q)) {n : ℕ} {t : System F Q}
      → IsKnown env volumes cache
      → Steps env volumes (launch cache parallel pvcs) n t
      → Inv parallel pvcs t
  Steps-Inv cache parallel pvcs known start = record {
    places = omega (arith, total-holds-launched pvcs);
    known = known;
    reached = IsReached-launched pvcs;
    same = map-pvc_of-launched pvcs;
  }
  Steps-Inv cache parallel pvcs known (later steps st) =
      Step-Inv st (Steps-Inv cache parallel pvcs known steps)

  pub clear-IsKnown : (cache : StorageClassCache) → IsKnown env volumes (clear cache)
  unfolding clear get get_fs_type lookup
  clear-IsKnown cache = record { expandable = λ name b e. cc; typed = λ name t e. cc }
