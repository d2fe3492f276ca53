-- ===== src/Maintenance/Quiescence.antt =====
-- app/maintenance.py: what starts while a hold is kept, and that a wait for the passes that run ends.
use busybridge.Prelude.{
  ℕ, zero, suc, ◌+◌, ◌≤◌, ◌≡◌, refl, subst, arith, ◌⊎◌, inl, inr, true, false, Bool-cases, Option,
  some, leb, ◌==◌, codes,
}
use busybridge.Errors.{Result, ok, raise, other_error}
use busybridge.Maintenance.{
  Gate, enter_maintenance, exit_maintenance, end_reconcile, start_pass,
  wait_for_reconcile_quiescence,
}

-- What the rest of the program does while one caller keeps a hold: the others enter, and exit the
-- holds that are theirs; passes start through the gate, and end. A step counts 1 where a pass starts
-- that was let through the gate, by allow_in_maintenance.
pub data Step : ℕ → Gate → Gate → Type 0 where
  entered : (s : Gate) → Step 0 s (enter_maintenance s)
  exited : (s : Gate) → 2 ≤ s.depth → Step 0 s (exit_maintenance s)
  started : (s t : Gate) → start_pass false s ≡ some t → Step 0 s t
  let_through : (s t : Gate) → start_pass true s ≡ some t → Step 1 s t
  ended : (s : Gate) → 1 ≤ s.running → Step 0 s (end_reconcile s)

-- Steps one after the other, by the number of passes that were let through.
pub data Reach : ℕ → Gate → Gate → Type 0 where
  here : (s : Gate) → Reach 0 s s
  step : (k n : ℕ) (s t u : Gate) → Step k s t → Reach n t u → Reach (k + n) s u

-- A wait that started at one poll ended at another, whose gate it read, at most n polls later.
abbrev pub EndsAt : ℕ → ℕ → ℕ → Type 0
EndsAt poll n i = (poll ≤ i) × (i ≤ n + poll)

module _ (deadline : ℕ) (clock : ℕ → ℕ) (gate_at : ℕ → Gate) where
  -- It returned, at a poll at which no pass was running.
  abbrev pub Quiet : ℕ → ℕ → Option (Result ℕ) → Type 0
  Quiet poll n out = (i : ℕ) × EndsAt poll n i × (out ≡ some (ok i)) × ((gate_at i).running ≡ 0)

  -- It raised, at a poll at or past the deadline at which a pass was running.
  abbrev pub TimedOut : ℕ → ℕ → Option (Result ℕ) → Type 0
  TimedOut poll n out =
      (i : ℕ) × EndsAt poll n i
      × (out ≡ some (raise (other_error (codes "TimeoutError"))))
      × (1 ≤ (gate_at i).running)
      × (deadline ≤ clock i)

  abbrev Ends : ℕ → ℕ → Option (Result ℕ) → Type 0
  Ends poll n out = Quiet poll n out ⊎ TimedOut poll n out

  shifted : (n poll : ℕ) → deadline ≤ clock (suc n + poll) → deadline ≤ clock (n + suc poll)
  shifted n poll h = subst (λ i. deadline ≤ clock i) (omega arith) h

  at_once : (poll : ℕ) → deadline ≤ clock (0 + poll) → deadline ≤ clock poll
  at_once poll h = subst (λ i. deadline ≤ clock i) (omega arith) h

  -- A wait that ends from the next poll on.
  later : (n poll : ℕ) (out : Option (Result ℕ)) → Ends (suc poll) n out → Ends poll (suc n) out
  later n poll out (inl (i, (low, high), done, quiet)) =
      inl (i, (omega arith, omega arith), done, quiet)
  later n poll out (inr (i, (low, high), done, runs, past)) =
      inr (i, (omega arith, omega arith), done, runs, past)

  -- A wait whose clock reaches the deadline at some poll ends by that poll: either it returns, at a
  -- poll at which no pass was running, or it raises a timeout, at a poll that was not before the
  -- deadline and at which a pass was running.
  pub wait_ends :
      (n poll : ℕ)
      → deadline ≤ clock (n + poll)
      → Quiet poll n (wait_for_reconcile_quiescence (suc n) deadline clock gate_at poll)
        ⊎ TimedOut poll n (wait_for_reconcile_quiescence (suc n) deadline clock gate_at poll)
  unfolding wait_for_reconcile_quiescence
  wait_ends zero poll h = elim (Bool-cases ((gate_at poll).running == 0)) [
    | inl e ↦ inl (poll, (omega arith, omega arith), rw e refl, ground arith)
    | inr e ↦
        let past = at_once poll h in
        let late : leb deadline (clock poll) ≡ true = ground (arith, past) in
        inr (poll, (omega arith, omega arith), rw (e, late) refl, ground arith, past)
  ]
  wait_ends (suc n) poll h = elim (Bool-cases ((gate_at poll).running == 0)) [
    | inl e ↦ inl (poll, (omega arith, omega arith), rw e refl, ground arith)
    | inr e ↦ elim (Bool-cases (leb deadline (clock poll))) [
      | inl f ↦ inr (poll, (omega arith, omega arith), rw (e, f) refl, ground arith, ground arith)
      | inr f ↦ rw (e, f) (later n poll _ (wait_ends n (suc poll) (shifted n poll h)))
    ]
  ]
