-- ===== src/Group/Locks.antt =====
-- statusLocks: how Reconcile of the group controller locks. Its goroutines are interleaved in any
-- order; a step is one call on the sync.Map or on a mutex. What Reconcile does between them is in
-- Reconciler. A mutex is the number under which it was made; statusLocks holds nothing else, so the
-- test of its type always passes. The controller's work queue, which would keep two calls for one
-- key apart, is not part of the model.
pub mod Held
pub mod Filed
pub mod Exclusion
pub mod Overtaken
use pvc_chonker.Prelude.{
  ℕ, suc, String, Bool, true, false, Option, none, some, List, ◌∷◌, ◌++◌, ◌≡◌, if◌then◌else◌, eqb,
  Dict, lookup, insert, map, ◌==◌, [],
}

-- Where a goroutine stands: before LoadOrStore, before Lock, in the part that the mutex guards, and
-- after the return, where the deferred calls run: Delete first if the group was gone, then Unlock.
pub data Phase : Type 0 where
  entering : Phase
  loaded : ℕ → Phase
  inside : ℕ → Phase
  deleting : ℕ → Phase
  unlocking : ℕ → Phase
  returned : Phase

-- statusLocks, which mutexes are locked, and the number of the next new one
pub record Locks : Type 0 where
  pub status_locks : Dict ℕ
  pub locked : ℕ → Bool
  pub next : ℕ

pub record Goroutine : Type 0 where
  pub lock_key : String
  pub phase : Phase

pub record System : Type 0 where
  pub locks : Locks
  pub goroutines : List Goroutine

-- sync.Map.Delete
unfoldable pub delete : String → Dict ℕ → Dict ℕ
delete key [] = []
delete key ((k, mutex) ∷ rest) =
    let others = delete key rest in if k == key then others else (k, mutex) ∷ others

-- Lock and Unlock
unfoldable pub set_locked : ℕ → Bool → Locks → Locks
set_locked mutex b locks = record locks { locked = λ m. if eqb m mutex then b else locks.locked m }

-- r.statusLocks.LoadOrStore(lockKey, &sync.Mutex{})
unfoldable pub load_or_store : Locks → String → Locks × Phase
load_or_store locks lock_key = elim (lookup lock_key locks.status_locks) [
  | some mutex ↦ (locks, loaded mutex)
  | none ↦ (
    record locks {
      status_locks = insert lock_key locks.next locks.status_locks;
      next = suc locks.next;
    },
    loaded locks.next,
  )
]

-- The next step of a goroutine, none where it has to wait or has returned. `gone` says that Get
-- answers "not found" in it.
unfoldable pub advance : Bool → Locks → String → Phase → Option (Locks × Phase)
advance gone locks lock_key entering = some (load_or_store locks lock_key)
advance gone locks lock_key (loaded mutex) =
    if locks.locked mutex then none else some (set_locked mutex true locks, inside mutex)
advance gone locks lock_key (inside mutex) =
    some (locks, if gone then deleting mutex else unlocking mutex)
advance gone locks lock_key (deleting mutex) =
    some (record locks { status_locks = delete lock_key locks.status_locks }, unlocking mutex)
advance gone locks lock_key (unlocking mutex) = some (set_locked mutex false locks, returned)
advance gone locks lock_key returned = none

-- One goroutine takes its next step.
pub data Step (gone : Bool) (s : System) : System → Type 0 where
  pick :
      (before after : List Goroutine) (g : Goroutine) {locks : Locks} {phase : Phase}
      → s.goroutines ≡ before ++ g ∷ after
      → advance gone s.locks g.lock_key g.phase ≡ some (locks, phase)
      → Step gone s
          (record { locks = locks; goroutines = before ++ record g { phase = phase } ∷ after })

-- Steps in any of which the group may be gone or, with `false`, in which it never is.
pub data Steps (may_be_gone : Bool) (s : System) : System → Type 0 where
  start : Steps may_be_gone s s
  later : {t u : System} → Steps may_be_gone s t → Step false t u → Steps may_be_gone s u
  later_gone :
      {t u : System}
      → may_be_gone ≡ true
      → Steps may_be_gone s t
      → Step true t u
      → Steps may_be_gone s u

abbrev pub no_locks : Locks
no_locks = record { status_locks = []; locked = λ mutex. false; next = 0 }

-- the goroutines of these keys at their start
abbrev pub enter : List String → System
enter keys = record {
  locks = no_locks;
  goroutines = map (λ key. record { lock_key = key; phase = entering }) keys;
}
