-- ===== src/Tests/Policies.antt =====
-- The semaphore of the policy controller, at a concrete run.
use pvc_chonker.Prelude.{Bool, ◌*◌, ◌≤◌, none, [], ◌∷◌, ok, err, ◌⊎◌, refl, All, length, List}
use pvc_chonker.Prelude.Int.{ℤ, pos}
use pvc_chonker.Kube.{not_found}
use pvc_chonker.PolicyStatus.Semaphore.{
  semaphore_size, Answers, System, blocked, inside, advance, Step, pick, Steps, start, later,
  started,
}
use pvc_chonker.PolicyStatus.Semaphore.Bounded.{in_flight, IsDone, Steps-bounded}
use pvc_chonker.Tests.Toy.{toy}

-- a policy that is gone
abbrev gone : Answers ℤ Bool
gone = record {
  list_pvcs = λ namespace. ok [];
  status_update = λ policy. none;
  now = pos 0;
  policy = err not_found;
}

abbrev two_calls : List (Answers ℤ Bool)
two_calls = gone ∷ gone ∷ []

-- both calls are admitted
abbrev both_inside : System ℤ Bool
both_inside = record {
  queued = 2;
  calls =
      record { answers = gone; phase = inside } ∷ record { answers = gone; phase = inside } ∷ [];
}

admits_both : Steps toy (started two_calls) 2 both_inside
unfolding advance
admits_both =
    later (later start (pick [] (record { answers = gone; phase = blocked } ∷ []) _ refl refl))
      (pick (record { answers = gone; phase = inside } ∷ []) [] _ refl refl)

Steps-bounded_example :
    (in_flight both_inside.calls ≤ semaphore_size)
    × (2 ≤ 2 * length two_calls)
    × (((u : System ℤ Bool) × Step toy both_inside u) ⊎ All (IsDone toy) both_inside.calls)
Steps-bounded_example = Steps-bounded toy two_calls admits_both
