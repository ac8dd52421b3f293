-- ===== src/PolicyStatus/Semaphore/Bounded.antt =====
-- The semaphore admits ten calls at most, and no call waits for ever.
use pvc_chonker.Prelude.{
  ℕ, suc, ◌+◌, ◌-◌, ◌*◌, ◌≤◌, ◌<◌, some, List, [], ◌∷◌, ◌++◌, ◌≡◌, ◌⊎◌, refl, Option, arith, map,
  inl, inr, All, All-replace, total, total-replace, total-cases, le-total, map-replace, length, ap,
  sym, ◌∙◌,
}
use native.Mathlib.Decide.{dec_lt}
use pvc_chonker.Kube.{Policy}
use pvc_chonker.Libs.{Libs}
use pvc_chonker.PolicyStatus.{Returned}
use pvc_chonker.PolicyStatus.Semaphore.{
  semaphore_size, Answers, Phase, blocked, inside, done, Call, System, body, advance, Step, pick,
  Steps, start, later, started,
}

abbrev holds : {Q S : Type 0} → Phase Q S → ℕ
holds blocked = 0
holds inside = 1
holds (done result) = 0

-- the calls between the send and the receive
abbrev pub in_flight : {Q S : Type 0} → List (Call Q S) → ℕ
in_flight calls = total (λ call. holds call.phase) calls

abbrev left : {Q S : Type 0} → Phase Q S → ℕ
left blocked = 2
left inside = 1
left (done result) = 0

abbrev steps_left : {Q S : Type 0} → List (Call Q S) → ℕ
steps_left calls = total (λ call. left call.phase) calls

module _ {F Q S : Type 0} (lib : Libs F Q S) where
  -- a call that returned has returned what its body gives
  abbrev IsTrue : Call Q S → Type 0
  IsTrue call =
      (result : Returned × Option (Policy Q S))
      → call.phase ≡ done result
      → result ≡ body lib call.answers

  abbrev pub IsDone : Call Q S → Type 0
  IsDone call = call.phase ≡ done (body lib call.answers)

  record Inv (os : List (Answers Q S)) (n : ℕ) (s : System Q S) : Type 0 where
    places : s.queued ≡ in_flight s.calls
    bounded : s.queued ≤ semaphore_size
    taken : n + steps_left s.calls ≡ 2 * length os
    same : map (λ call. call.answers) s.calls ≡ os
    true_results : All IsTrue s.calls

  advance_lem :
      (queued queued' : ℕ) (o : Answers Q S) (phase phase' : Phase Q S)
      → advance lib queued o phase ≡ some (queued', phase')
      → (queued' + holds phase ≡ queued + holds phase')
        × (queued ≤ semaphore_size → queued' ≤ semaphore_size)
        × (left phase ≡ suc (left phase'))
        × ((result : Returned × Option (Policy Q S)) → phase' ≡ done result → result ≡ body lib o)
  unfolding advance
  advance_lem queued queued' o blocked phase' e =
      (ground arith, λ h. ground arith, ground arith, λ result d. absurd (ground arith))
  advance_lem queued queued' o inside phase' e =
      (ground arith, λ h. ground arith, ground arith, λ result d. ground arith)
  advance_lem queued queued' o (done result) phase' e = cc

  Step-Inv :
      (os : List (Answers Q S)) {n : ℕ} {s t : System Q S}
      → Inv os n s
      → Step lib s t
      → Inv os (suc n) t
  Step-Inv os {s = s} inv (pick before after call {queued} {phase} there e) =
      let (places, bounded, taken, result) =
        advance_lem s.queued queued call.answers call.phase phase e in
      let call' = record call { phase = phase } in
      let held = rw there at inv.places in
      let before_taken = rw there at inv.taken in
      record {
        places =
            omega (arith, total-replace (λ (c : Call Q S). holds c.phase) before call call' after);
        bounded = bounded inv.bounded;
        taken =
            omega (arith, total-replace (λ (c : Call Q S). left c.phase) before call call' after);
        same =
            sym (map-replace (λ (c : Call Q S). c.answers) before call call' after refl)
            ∙ ap (λ cs. map (λ (c : Call Q S). c.answers) cs) (sym there)
            ∙ inv.same;
        true_results =
            All-replace IsTrue before call call' after (rw there at inv.true_results) result;
      }

  started-Inv : (os : List (Answers Q S)) → Inv os 0 (started os)
  started-Inv [] = record {
    places = refl;
    bounded = omega arith;
    taken = refl;
    same = refl;
    true_results = tt;
  }
  started-Inv (o ∷ os) =
      let rest = started-Inv os in
      record {
        places = omega (arith, rest.places);
        bounded = omega arith;
        taken = omega (arith, rest.taken);
        same = ap (λ l. o ∷ l) rest.same;
        true_results = (λ result e. absurd (ground arith), rest.true_results);
      }

  Steps-Inv :
      (os : List (Answers Q S)) {n : ℕ} {t : System Q S} → Steps lib (started os) n t → Inv os n t
  Steps-Inv os start = started-Inv os
  Steps-Inv os (later steps step) = Step-Inv os (Steps-Inv os steps) step

  IsDone-of : (calls : List (Call Q S)) → steps_left calls ≡ 0 → All IsTrue calls → All IsDone calls
  IsDone-of [] e h = tt
  IsDone-of (call ∷ calls) e (true_result, h) =
      (at_phase call.phase refl, IsDone-of calls (omega arith) h)
    where
      at_phase : (phase : Phase Q S) → call.phase ≡ phase → IsDone call
      at_phase blocked p = absurd (ground arith)
      at_phase inside p = absurd (ground arith)
      at_phase (done result) p = rw (← true_result result p) p

  advance_inside :
      (queued : ℕ) (o : Answers Q S) (phase : Phase Q S)
      → 0 < holds phase
      → 0 < queued
      → (next : ℕ × Phase Q S) × (advance lib queued o phase ≡ some next)
  unfolding advance
  advance_inside queued o blocked h p = absurd (omega arith)
  advance_inside queued o inside h p = ((queued - 1, done (body lib o)), ground arith)
  advance_inside queued o (done result) h p = absurd (omega arith)

  advance_room :
      (queued : ℕ) (o : Answers Q S) (phase : Phase Q S)
      → 0 < left phase
      → queued < semaphore_size
      → holds phase ≤ queued
      → (next : ℕ × Phase Q S) × (advance lib queued o phase ≡ some next)
  unfolding advance
  advance_room queued o blocked h p q = ((queued + 1, inside), ground arith)
  advance_room queued o inside h p q = ((queued - 1, done (body lib o)), ground arith)
  advance_room queued o (done result) h p q = absurd (omega arith)

  progress :
      (os : List (Answers Q S)) {n : ℕ} (s : System Q S)
      → Inv os n s
      → ((t : System Q S) × Step lib s t) ⊎ All IsDone s.calls
  progress os s inv = elim (total-cases (λ (c : Call Q S). left c.phase) s.calls) [
    | inl none_left ↦ inr (IsDone-of s.calls none_left inv.true_results)
    | inr (before, after, call, there, unfinished) ↦ elim (dec_lt s.queued semaphore_size) [
      | yes room ↦
          let held = le-total (λ (c : Call Q S). holds c.phase) before call after in
          let counted : s.queued ≡ in_flight (before ++ call ∷ after) = rw there at inv.places in
          let (next, e) =
            advance_room s.queued call.answers call.phase unfinished room (omega arith) in
          inl (_, pick before after call there e)
      | no full ↦ elim (total-cases (λ (c : Call Q S). holds c.phase) s.calls) [
        | inl none_inside ↦ absurd (omega (arith, inv.places))
        | inr (front, rest, holder, here, holding) ↦
            let (next, e) =
              advance_inside s.queued holder.answers holder.phase holding (omega arith) in
            inl (_, pick front rest holder here e)
      ]
    ]
  ]

  -- However the calls of Reconcile for policies are interleaved: at most ten are in their bodies at
  -- once, each takes at most two steps at the semaphore, a call always can go on until all have
  -- returned, and then each has returned what its body gives.
  pub Steps-bounded :
      (os : List (Answers Q S)) {n : ℕ} {t : System Q S}
      → Steps lib (started os) n t
      → (in_flight t.calls ≤ semaphore_size)
        × (n ≤ 2 * length os)
        × (((u : System Q S) × Step lib t u) ⊎ All IsDone t.calls)
  Steps-bounded os {t = t} steps =
      let inv = Steps-Inv os steps in
      (omega (arith, inv.places, inv.bounded), omega (arith, inv.taken), progress os t inv)
