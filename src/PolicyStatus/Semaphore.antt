-- ===== src/PolicyStatus/Semaphore.antt =====
-- The semaphore of PVCPolicyReconciler: a channel with room for ten, which SetupWithManager makes,
-- and calls of Reconcile that send to it first and receive from it when they return.
pub mod Bounded
use pvc_chonker.Prelude.{
  ℕ, suc, ◌-◌, ◌+◌, String, Option, none, some, List, [], ◌∷◌, ◌++◌, Result, eqb, if◌then◌else◌,
  map, ◌≡◌,
}
use pvc_chonker.Prelude.Int.{ℤ}
use pvc_chonker.Kube.{Pvc, Policy, ApiError}
use pvc_chonker.Libs.{Libs}
use pvc_chonker.PolicyStatus.{Returned, reconcile}

-- the capacity of the channel
abbrev pub semaphore_size : ℕ
semaphore_size = 10

-- What a call of Reconcile meets answers while it is in its body.
pub record Answers (Q S : Type 0) : Type 0 where
  pub list_pvcs : String → Result ApiError (List (Pvc Q))
  pub status_update : Policy Q S → Option ApiError
  pub now : ℤ
  pub policy : Result ApiError (Policy Q S)

-- A call blocked at the send, one between the send and the deferred receive, or one that returned.
pub data Phase (Q S : Type 0) : Type 0 where
  blocked : Phase Q S
  inside : Phase Q S
  done : Returned × Option (Policy Q S) → Phase Q S

pub record Call (Q S : Type 0) : Type 0 where
  pub answers : Answers Q S
  pub phase : Phase Q S

-- the number of values in the channel, and the calls
pub record System (Q S : Type 0) : Type 0 where
  pub queued : ℕ
  pub calls : List (Call Q S)

module _ {F Q S : Type 0} (lib : Libs F Q S) where
  -- the body of Reconcile below the send
  abbrev pub body : Answers Q S → Returned × Option (Policy Q S)
  body o = reconcile lib o.list_pvcs o.status_update o.now o.policy

  -- The next step of a call, none where it is blocked or has returned. The receive is deferred, so
  -- it follows each return of the body.
  unfoldable pub advance : ℕ → Answers Q S → Phase Q S → Option (ℕ × Phase Q S)
  advance queued o blocked = if eqb queued semaphore_size then none else some (queued + 1, inside)
  advance queued o inside = if eqb queued 0 then none else some (queued - 1, done (body o))
  advance queued o (done result) = none

  pub data Step (s : System Q S) : System Q S → Type 0 where
    pick :
        (before after : List (Call Q S)) (call : Call Q S) {queued : ℕ} {phase : Phase Q S}
        → s.calls ≡ before ++ call ∷ after
        → advance s.queued call.answers call.phase ≡ some (queued, phase)
        → Step s
            (record { queued = queued; calls = before ++ record call { phase = phase } ∷ after })

  -- `n` steps, one after the other
  pub data Steps (s : System Q S) : ℕ → System Q S → Type 0 where
    start : Steps s 0 s
    later : {n : ℕ} {t u : System Q S} → Steps s n t → Step t u → Steps s (suc n) u

abbrev called : {Q S : Type 0} → Answers Q S → Call Q S
called o = record { answers = o; phase = blocked }

-- calls of Reconcile at their start, with the channel empty
abbrev pub started : {Q S : Type 0} → List (Answers Q S) → System Q S
started os = record { queued = 0; calls = map called os }
