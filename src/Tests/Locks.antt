-- ===== src/Tests/Locks.antt =====
-- The locks of the group controller at concrete inputs.
use pvc_chonker.Prelude.{
  ◌≤◌, true, false, [], ◌∷◌, ◌≡◌, refl, total, eqb, if◌then◌else◌, lookup, insert,
}
use pvc_chonker.Group.Locks.{
  System, Goroutine, entering, inside, loaded, Steps, start, later, pick, enter, advance,
  load_or_store, set_locked,
}
use pvc_chonker.Group.Locks.Exclusion.{works_on, Steps-exclusive}
use pvc_chonker.Group.Locks.Overtaken.{both_inside}

-- Two goroutines of one group; one has made the mutex and locked it, the other waits.
abbrev waits : System
waits = record {
  locks = record {
    status_locks = ("apps/db", 0) ∷ [];
    locked = λ m. if eqb m 0 then true else false;
    next = 1;
  };
  goroutines =
      record { lock_key = "apps/db"; phase = inside 0 }
      ∷ record { lock_key = "apps/db"; phase = loaded 0 }
      ∷ [];
}

abbrev entered : Goroutine
entered = record { lock_key = "apps/db"; phase = entering }

abbrev with_mutex : Goroutine
with_mutex = record { lock_key = "apps/db"; phase = loaded 0 }

waits-Steps : Steps false (enter ("apps/db" ∷ "apps/db" ∷ [])) waits
unfolding advance load_or_store set_locked lookup insert
waits-Steps =
    let made = later start (pick [] (entered ∷ []) entered refl refl) in
    let found = later made (pick (with_mutex ∷ []) [] entered refl refl) in
    later found (pick [] (with_mutex ∷ []) with_mutex refl refl)

Steps-exclusive_example : total (works_on "apps/db") waits.goroutines ≤ 1
Steps-exclusive_example = Steps-exclusive ("apps/db" ∷ "apps/db" ∷ []) "apps/db" waits-Steps

both_inside_example :
    (t : System) × Steps true (enter ("apps/db" ∷ "apps/db" ∷ "apps/db" ∷ [])) t
    × (total (works_on "apps/db") t.goroutines ≡ 2)
both_inside_example = both_inside "apps/db"
