-- ===== src/Group/Locks/Filed.antt =====
-- While no group is gone, every goroutine of a group has the mutex that statusLocks has for it.
use pvc_chonker.Prelude.{
  ℕ, String, false, none, some, List, ◌∷◌, ◌++◌, ◌≡◌, arith, inl, inr, Dict, lookup, insert,
  lookup-insert, lookup-insert_self, Bool-cases, Option-cases, All, All-middle, All-replace,
  All-map, eq_iff, subst,
}
use pvc_chonker.Group.Locks.{
  Phase, entering, loaded, inside, deleting, unlocking, returned, Locks, Goroutine, System,
  set_locked, load_or_store, advance, Step, pick,
}
use pvc_chonker.Group.Locks.Held.{some-injective}

-- The mutex of a goroutine is the one that statusLocks has for its key.
abbrev pub MutexIs : Dict ℕ → String → ℕ → Type 0
MutexIs dict key n = lookup key dict ≡ some n

abbrev pub IsFiled : Dict ℕ → String → Phase → Type 0
IsFiled dict key entering = Unit
IsFiled dict key (loaded n) = MutexIs dict key n
IsFiled dict key (inside n) = MutexIs dict key n
IsFiled dict key (deleting n) = ⊥
IsFiled dict key (unlocking n) = MutexIs dict key n
IsFiled dict key returned = Unit

abbrev pub AreFiled : Dict ℕ → List Goroutine → Type 0
AreFiled dict gs = All (λ g. IsFiled dict g.lock_key g.phase) gs

-- Every entry of the first is in the second.
abbrev Extends : Dict ℕ → Dict ℕ → Type 0
Extends dict dict' = (key : String) (n : ℕ) → MutexIs dict key n → MutexIs dict' key n

IsFiled-Extends :
    (dict dict' : Dict ℕ) (key : String) (phase : Phase)
    → Extends dict dict'
    → IsFiled dict key phase
    → IsFiled dict' key phase
IsFiled-Extends dict dict' key entering x h = tt
IsFiled-Extends dict dict' key (loaded n) x h = x key n h
IsFiled-Extends dict dict' key (inside n) x h = x key n h
IsFiled-Extends dict dict' key (deleting n) x h = h
IsFiled-Extends dict dict' key (unlocking n) x h = x key n h
IsFiled-Extends dict dict' key returned x h = tt

-- One step leaves a phase that is filed, and the entries that there were.
abbrev KeepsFiled : Dict ℕ → String → Locks × Phase → Type 0
KeepsFiled dict key next = IsFiled next.0.status_locks key next.1 × Extends dict next.0.status_locks

insert-Extends :
    (dict : Dict ℕ) (key : String) (n : ℕ)
    → lookup key dict ≡ none
    → Extends dict (insert key n dict)
insert-Extends dict key n new k m known = ground (arith, lookup-insert key k n dict, eq_iff key k)

load_or_store-KeepsFiled :
    (locks : Locks) (key : String) → KeepsFiled locks.status_locks key (load_or_store locks key)
unfolding load_or_store lookup
load_or_store-KeepsFiled locks key = elim (Option-cases (lookup key locks.status_locks)) [
  | inl new ↦
      rw (load_or_store, new)
        (
          lookup-insert_self key locks.next locks.status_locks,
          insert-Extends locks.status_locks key locks.next new,
        )
  | inr (n, known) ↦ rw (load_or_store, known) (known, λ k m h. h)
]

advance-KeepsFiled :
    (locks : Locks) (key : String) (phase : Phase) (next : Locks × Phase)
    → advance false locks key phase ≡ some next
    → IsFiled locks.status_locks key phase
    → KeepsFiled locks.status_locks key next
unfolding advance
advance-KeepsFiled locks key entering next e h =
    subst (KeepsFiled locks.status_locks key) (some-injective _ next e)
      (load_or_store-KeepsFiled locks key)
advance-KeepsFiled locks key (loaded n) next e h = elim (Bool-cases (locks.locked n)) [
  | inl taken ↦ absurd (cc)
  | inr free ↦
      subst (KeepsFiled locks.status_locks key) (some-injective _ next (rw free at e))
        (unfold set_locked in (h, λ k m known. known))
]
advance-KeepsFiled locks key (inside n) next e h =
    subst (KeepsFiled locks.status_locks key) (some-injective _ next e) (h, λ k m known. known)
advance-KeepsFiled locks key (deleting n) next e h = absurd h
advance-KeepsFiled locks key (unlocking n) next e h =
    subst (KeepsFiled locks.status_locks key) (some-injective _ next e)
      (unfold set_locked in (tt, λ k m known. known))
advance-KeepsFiled locks key returned next e h = cc

pub Step-AreFiled :
    {s t : System}
    → Step false s t
    → AreFiled s.locks.status_locks s.goroutines
    → AreFiled t.locks.status_locks t.goroutines
Step-AreFiled {s} (pick before after g {locks} {phase} where_it_stands e) filed =
    let all = rw where_it_stands at filed in
    let (own, extends) =
      advance-KeepsFiled s.locks g.lock_key g.phase (locks, phase) e
        (All-middle (λ g. IsFiled s.locks.status_locks g.lock_key g.phase) before g after all) in
    All-replace (λ g. IsFiled locks.status_locks g.lock_key g.phase) before g
      (record g { phase = phase }) after
      (All-map (λ g. IsFiled s.locks.status_locks g.lock_key g.phase)
        (λ g. IsFiled locks.status_locks g.lock_key g.phase)
        (λ g. IsFiled-Extends s.locks.status_locks locks.status_locks g.lock_key g.phase extends)
        (before ++ g ∷ after) all)
      own
