-- ===== src/Group/Locks/Exclusion.antt =====
-- While no group is gone, one goroutine at a time works on a group.
use pvc_chonker.Prelude.{
  ℕ, ◌≤◌, String, Bool, false, none, some, List, [], ◌∷◌, ◌==◌, ◌≡◌, refl, arith, inl, inr,
  if◌then◌else◌, Dict, lookup, Bool-cases, Option-cases, total, eq_iff,
}
use pvc_chonker.Group.Locks.{
  Phase, entering, loaded, inside, deleting, unlocking, returned, Goroutine, System, Steps, start,
  later, later_gone, enter,
}
use pvc_chonker.Group.Locks.Held.{holds, AreHeld, Step-AreHeld}
use pvc_chonker.Group.Locks.Filed.{IsFiled, AreFiled, Step-AreFiled}

-- 1 from the return of Lock to the return of Unlock
abbrev pub is_inside : Phase → ℕ
is_inside entering = 0
is_inside (loaded n) = 0
is_inside (inside n) = 1
is_inside (deleting n) = 1
is_inside (unlocking n) = 1
is_inside returned = 0

-- 1 where the goroutine works on the group of this key
abbrev pub works_on : String → Goroutine → ℕ
works_on key g = if g.lock_key == key then is_inside g.phase else 0

phase-le :
    (dict : Dict ℕ) (key : String) (n : ℕ) (phase : Phase)
    → lookup key dict ≡ some n
    → IsFiled dict key phase
    → is_inside phase ≤ holds n (record { lock_key = key; phase = phase })
phase-le dict key n entering e h = omega arith
phase-le dict key n (loaded m) e h = omega arith
phase-le dict key n (inside m) e h = let same : m ≡ n = cc (e, h) in ground (arith, same)
phase-le dict key n (deleting m) e h = absurd h
phase-le dict key n (unlocking m) e h = let same : m ≡ n = cc (e, h) in ground (arith, same)
phase-le dict key n returned e h = omega arith

works_on-le :
    (dict : Dict ℕ) (key : String) (n : ℕ) (gs : List Goroutine)
    → lookup key dict ≡ some n
    → AreFiled dict gs
    → total (works_on key) gs ≤ total (holds n) gs
works_on-le dict key n [] e h = omega arith
works_on-le dict key n (g ∷ gs) e (filed, h) = elim (Bool-cases (g.lock_key == key)) [
  | inl same ↦
      let k : g.lock_key ≡ key = ground (arith, eq_iff g.lock_key key) in
      let found : lookup g.lock_key dict ≡ some n = rw k e in
      rw same (
        omega
          (arith, phase-le dict g.lock_key n g.phase found filed, works_on-le dict key n gs e h))
  | inr other ↦ rw other (omega (arith, works_on-le dict key n gs e h))
]

phase-nowhere :
    (dict : Dict ℕ) (key : String) (phase : Phase)
    → lookup key dict ≡ none
    → IsFiled dict key phase
    → is_inside phase ≡ 0
phase-nowhere dict key entering e h = refl
phase-nowhere dict key (loaded m) e h = refl
phase-nowhere dict key (inside m) e h = absurd (cc (e, h))
phase-nowhere dict key (deleting m) e h = absurd h
phase-nowhere dict key (unlocking m) e h = absurd (cc (e, h))
phase-nowhere dict key returned e h = refl

works_on-nowhere :
    (dict : Dict ℕ) (key : String) (gs : List Goroutine)
    → lookup key dict ≡ none
    → AreFiled dict gs
    → total (works_on key) gs ≡ 0
works_on-nowhere dict key [] e h = refl
works_on-nowhere dict key (g ∷ gs) e (filed, h) = elim (Bool-cases (g.lock_key == key)) [
  | inl same ↦
      let k : g.lock_key ≡ key = ground (arith, eq_iff g.lock_key key) in
      let missing : lookup g.lock_key dict ≡ none = rw k e in
      rw same (
        omega (
          arith,
          phase-nowhere dict g.lock_key g.phase missing filed,
          works_on-nowhere dict key gs e h,
        ))
  | inr other ↦ rw other (omega (arith, works_on-nowhere dict key gs e h))
]

holds-entering : (m : ℕ) (keys : List String) → total (holds m) (enter keys).goroutines ≡ 0
holds-entering m [] = refl
holds-entering m (key ∷ keys) = omega (arith, holds-entering m keys)

filed-entering : (keys : List String) → AreFiled [] (enter keys).goroutines
filed-entering [] = tt
filed-entering (key ∷ keys) = (tt, filed-entering keys)

-- A mutex has one holder at most, also where groups are gone.
Steps-AreHeld : {b : Bool} (keys : List String) {t : System} → Steps b (enter keys) t → AreHeld t
Steps-AreHeld keys start = λ m. holds-entering m keys
Steps-AreHeld keys (later steps st) = Step-AreHeld st (Steps-AreHeld keys steps)
Steps-AreHeld keys (later_gone e steps st) = Step-AreHeld st (Steps-AreHeld keys steps)

Steps-AreFiled :
    {b : Bool} (keys : List String) {t : System}
    → b ≡ false
    → Steps b (enter keys) t
    → AreFiled t.locks.status_locks t.goroutines
Steps-AreFiled keys never start = filed-entering keys
Steps-AreFiled keys never (later steps st) = Step-AreFiled st (Steps-AreFiled keys never steps)
Steps-AreFiled keys never (later_gone e steps st) = absurd (cc (e, never))

at_most_one : (n : ℕ) (b : Bool) → n ≡ (if b then 1 else 0) → n ≤ 1
at_most_one n b e = ground arith

-- In every interleaving of calls of Reconcile in which no group is found to be gone, at most one
-- goroutine at a time is between Lock and Unlock for a group.
pub Steps-exclusive :
    (keys : List String) (key : String) {t : System}
    → Steps false (enter keys) t
    → total (works_on key) t.goroutines ≤ 1
Steps-exclusive keys key {t} steps =
    let filed = Steps-AreFiled keys refl steps in
    elim (Option-cases (lookup key t.locks.status_locks)) [
      | inl missing ↦
          omega (arith, works_on-nowhere t.locks.status_locks key t.goroutines missing filed)
      | inr (n, found) ↦
          let one = at_most_one _ (t.locks.locked n) (Steps-AreHeld keys steps n) in
          omega (arith, one, works_on-le t.locks.status_locks key n t.goroutines found filed)
    ]
