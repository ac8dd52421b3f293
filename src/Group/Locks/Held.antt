-- ===== src/Group/Locks/Held.antt =====
-- A mutex has one holder at most.
use pvc_chonker.Prelude.{
  ℕ, ◌+◌, ◌≤◌, String, Bool, true, false, Option, some, List, [], ◌∷◌, ◌++◌, ◌≡◌, refl, arith, inl,
  inr, if◌then◌else◌, eqb, lookup, Bool-cases, Option-cases, total, total-replace, subst,
}
use pvc_chonker.Group.Locks.{
  Phase, entering, loaded, inside, deleting, unlocking, returned, Locks, Goroutine, System,
  set_locked, load_or_store, advance, Step, pick,
}

abbrev pub bit : Bool → ℕ
bit b = if b then 1 else 0

-- 1 where the goroutine has locked this mutex
abbrev pub holds_phase : ℕ → Phase → ℕ
holds_phase m entering = 0
holds_phase m (loaded n) = 0
holds_phase m (inside n) = bit (eqb m n)
holds_phase m (deleting n) = bit (eqb m n)
holds_phase m (unlocking n) = bit (eqb m n)
holds_phase m returned = 0

abbrev pub holds : ℕ → Goroutine → ℕ
holds m g = holds_phase m g.phase

pub some-injective : {A : Type 0} (a b : A) → ◌≡◌ {A = Option A} (some a) (some b) → a ≡ b
some-injective a b e = cc

-- One step on these locks keeps the count of the holders of the mutex.
abbrev KeepsCount : ℕ → Locks → Phase → Locks × Phase → Type 0
KeepsCount m locks phase next =
    bit (next.0.locked m) + holds_phase m phase ≡ bit (locks.locked m) + holds_phase m next.1

lock-KeepsCount :
    (m n : ℕ) (locks : Locks)
    → locks.locked n ≡ false
    → KeepsCount m locks (loaded n) (set_locked n true locks, inside n)
unfolding set_locked
lock-KeepsCount m n locks unlocked = elim (Bool-cases (eqb m n)) [
  | inl same ↦
      let e : m ≡ n = ground arith in
      let free : locks.locked m ≡ false = rw e unlocked in rw (same, free) refl
  | inr other ↦ rw other refl
]

unlock-KeepsCount :
    (m n : ℕ) (locks : Locks)
    → holds_phase m (unlocking n) ≤ bit (locks.locked m)
    → KeepsCount m locks (unlocking n) (set_locked n false locks, returned)
unfolding set_locked
unlock-KeepsCount m n locks h = elim (Bool-cases (eqb m n)) [
  | inl same ↦ let one : 1 ≤ bit (locks.locked m) = rw same at h in rw same (ground (arith, one))
  | inr other ↦ rw other (omega arith)
]

load_or_store-KeepsCount :
    (m : ℕ) (locks : Locks) (key : String) → KeepsCount m locks entering (load_or_store locks key)
unfolding load_or_store
load_or_store-KeepsCount m locks key = elim (Option-cases (lookup key locks.status_locks)) [
  | inl new ↦ rw (load_or_store, new) refl
  | inr (n, known) ↦ rw (load_or_store, known) refl
]

inside-KeepsCount :
    (gone : Bool) (m n : ℕ) (locks : Locks)
    → KeepsCount m locks (inside n) (locks, if gone then deleting n else unlocking n)
inside-KeepsCount true m n locks = refl
inside-KeepsCount false m n locks = refl

-- Lock and Unlock keep the count of the holders of each mutex.
advance-KeepsCount :
    (gone : Bool) (locks : Locks) (key : String) (phase : Phase) (m : ℕ) (next : Locks × Phase)
    → advance gone locks key phase ≡ some next
    → holds_phase m phase ≤ bit (locks.locked m)
    → KeepsCount m locks phase next
unfolding advance
advance-KeepsCount gone locks key entering m next e h =
    subst (KeepsCount m locks entering) (some-injective _ next e)
      (load_or_store-KeepsCount m locks key)
advance-KeepsCount gone locks key (loaded n) m next e h = elim (Bool-cases (locks.locked n)) [
  | inl taken ↦ absurd (cc)
  | inr free ↦
      subst (KeepsCount m locks (loaded n)) (some-injective _ next (rw free at e))
        (lock-KeepsCount m n locks free)
]
advance-KeepsCount gone locks key (inside n) m next e h =
    subst (KeepsCount m locks (inside n)) (some-injective _ next e)
      (inside-KeepsCount gone m n locks)
advance-KeepsCount gone locks key (deleting n) m next e h =
    subst (KeepsCount m locks (deleting n)) (some-injective _ next e) refl
advance-KeepsCount gone locks key (unlocking n) m next e h =
    subst (KeepsCount m locks (unlocking n)) (some-injective _ next e)
      (unlock-KeepsCount m n locks h)
advance-KeepsCount gone locks key returned m next e h = cc

total-middle :
    (m : ℕ) (before : List Goroutine) (g : Goroutine) (after : List Goroutine)
    → holds m g ≤ total (holds m) (before ++ g ∷ after)
total-middle m [] g after = omega arith
total-middle m (x ∷ before) g after = omega (arith, total-middle m before g after)

-- A mutex that is locked has one holder, and no other has any.
abbrev pub AreHeld : System → Type 0
AreHeld s = (m : ℕ) → total (holds m) s.goroutines ≡ bit (s.locks.locked m)

pub Step-AreHeld : {gone : Bool} {s t : System} → Step gone s t → AreHeld s → AreHeld t
Step-AreHeld {gone} {s} (pick before after g {locks} {phase} where_it_stands e) held m =
    let one = total-middle m before g after in
    let all = rw where_it_stands at (held m) in
    omega (
      arith,
      all,
      total-replace (holds m) before g (record g { phase = phase }) after,
      advance-KeepsCount gone s.locks g.lock_key g.phase m (locks, phase) e
          (omega (arith, one, all)),
    )
