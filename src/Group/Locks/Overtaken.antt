-- ===== src/Group/Locks/Overtaken.antt =====
-- Where a group is gone, Delete runs before Unlock, and a goroutine that waits for the old mutex
-- and one that makes a new mutex can both go on.
use pvc_chonker.Prelude.{
  ℕ, suc, String, Bool, true, false, some, [], ◌∷◌, ◌≡◌, refl, if◌then◌else◌, eqb, Dict, lookup,
  insert, total, eq_refl, ap,
}
use pvc_chonker.Group.Locks.{
  Phase, entering, loaded, inside, deleting, unlocking, returned, Locks, Goroutine, System, delete,
  set_locked, load_or_store, advance, pick, Steps, start, later, later_gone, enter,
}
use pvc_chonker.Group.Locks.Exclusion.{works_on}

load_or_store-known :
    (locks : Locks) (key : String) (n : ℕ)
    → lookup key locks.status_locks ≡ some n
    → load_or_store locks key ≡ (locks, loaded n)
unfolding load_or_store
load_or_store-known locks key n known = rw (load_or_store, known) refl

module _ (key : String) where
  -- statusLocks with one entry
  abbrev one_entry : ℕ → Dict ℕ
  one_entry n = (key, n) ∷ []

  lookup-one_entry : (n : ℕ) → lookup key (one_entry n) ≡ some n
  unfolding lookup
  lookup-one_entry n = rw (eq_refl key) refl

  delete-one_entry : (n : ℕ) → delete key (one_entry n) ≡ []
  unfolding delete
  delete-one_entry n = rw (eq_refl key) refl

  abbrev at : Phase → Goroutine
  at phase = record { lock_key = key; phase = phase }

  abbrev locks_with : Dict ℕ → (ℕ → Bool) → ℕ → Locks
  locks_with dict locked next = record { status_locks = dict; locked = locked; next = next }

  abbrev unlocked : ℕ → Bool
  unlocked m = false

  make_step :
      (locked : ℕ → Bool) (n : ℕ)
      → advance false (locks_with [] locked n) key entering
        ≡ some (locks_with (one_entry n) locked (suc n), loaded n)
  unfolding advance load_or_store lookup insert
  make_step locked n = refl

  load_step :
      (locked : ℕ → Bool) (n next : ℕ)
      → advance false (locks_with (one_entry n) locked next) key entering
        ≡ some (locks_with (one_entry n) locked next, loaded n)
  unfolding advance
  load_step locked n next =
      ap some
        (load_or_store-known (locks_with (one_entry n) locked next) key n (lookup-one_entry n))

  delete_step :
      (locked : ℕ → Bool) (n next : ℕ)
      → advance true (locks_with (one_entry n) locked next) key (deleting n)
        ≡ some (locks_with [] locked next, unlocking n)
  unfolding advance
  delete_step locked n next = rw (delete-one_entry n) refl

  abbrev written : ℕ → Bool → (ℕ → Bool) → ℕ → Bool
  written n b locked m = if eqb m n then b else locked m

  lock_step :
      (dict : Dict ℕ) (locked : ℕ → Bool) (next n : ℕ)
      → locked n ≡ false
      → advance false (locks_with dict locked next) key (loaded n)
        ≡ some (locks_with dict (written n true locked) next, inside n)
  unfolding advance set_locked
  lock_step dict locked next n free = rw free refl

  gone_step : (locks : Locks) (n : ℕ) → advance true locks key (inside n) ≡ some (locks, deleting n)
  unfolding advance
  gone_step locks n = refl

  unlock_step :
      (dict : Dict ℕ) (locked : ℕ → Bool) (next n : ℕ)
      → advance false (locks_with dict locked next) key (unlocking n)
        ≡ some (locks_with dict (written n false locked) next, returned)
  unfolding advance set_locked
  unlock_step dict locked next n = refl

  -- Of three calls of Reconcile for one group, of which one finds the group gone, two can be
  -- between Lock and Unlock at the same time.
  pub both_inside :
      (t : System) × Steps true (enter (key ∷ key ∷ key ∷ [])) t
      × (total (works_on key) t.goroutines ≡ 2)
  both_inside =
      let l1 = written 0 true unlocked in
      let l2 = written 0 false l1 in
      let l3 = written 1 true l2 in
      let s1 =
        later start
          (pick [] (at entering ∷ at entering ∷ []) (at entering) refl (make_step unlocked 0)) in
      let s2 = later s1 (
        pick (at (loaded 0) ∷ []) (at entering ∷ []) (at entering) refl (load_step unlocked 0 1)) in
      let s3 = later s2 (
        pick [] (at (loaded 0) ∷ at entering ∷ []) (at (loaded 0)) refl
          (lock_step (one_entry 0) unlocked 1 0 refl)) in
      let s4 = later_gone refl s3 (
        pick [] (at (loaded 0) ∷ at entering ∷ []) (at (inside 0)) refl
          (gone_step (locks_with (one_entry 0) l1 1) 0)) in
      let s5 =
        later_gone refl s4 (
          pick [] (at (loaded 0) ∷ at entering ∷ []) (at (deleting 0)) refl (delete_step l1 0 1)) in
      let s6 = later s5 (
        pick [] (at (loaded 0) ∷ at entering ∷ []) (at (unlocking 0)) refl
          (unlock_step [] l1 1 0)) in
      let s7 =
        later s6 (pick (at returned ∷ at (loaded 0) ∷ []) [] (at entering) refl (make_step l2 1)) in
      let s8 = later s7 (
        pick (at returned ∷ at (loaded 0) ∷ []) [] (at (loaded 1)) refl
          (lock_step (one_entry 1) l2 2 1 refl)) in
      let s9 = later s8 (
        pick (at returned ∷ []) (at (inside 1) ∷ []) (at (loaded 0)) refl
          (lock_step (one_entry 1) l3 2 0 refl)) in
      (_, s9, rw (eq_refl key) refl)
