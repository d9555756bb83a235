-- ===== src/Timers/Loop/Progress.antt =====
-- How simulation::run ends.
use libsimulator.Base.{
  ℕ, zero, suc, ◌+◌, ◌<◌, ◌≡◌, ◌⊎◌, refl, ap, subst, ◌∙◌, true, false, List, [], ◌∷◌, inl, inr,
  arith, ltb, lt→ltb, ◌==◌, if◌then◌else◌, if_rule,
}
use libsimulator.Timers.{World, advance}
use libsimulator.Timers.Invariant.{IsValid, advance-IsValid}
use libsimulator.Timers.Firing.{advance-Fires, advance_nil}
use libsimulator.Timers.Loop.{
  Run, max_stalled_iterations, Outcome, returns, throws, out_of_fuel, start, busy, watch, settle,
  turned, executed, turn, run,
}

-- An iteration that fired nothing left no timer pending.
idle_empty :
    (w : World) (q : List ℕ)
    → w.timer_queue ≡ q
    → IsValid w
    → (advance w).1 ≡ 0
    → (advance w).0.timer_queue ≡ []
idle_empty w [] q i e = ap (λ (r : World × ℕ). r.0.timer_queue) (advance_nil w q) ∙ q
idle_empty w (t ∷ ts) q i e = absurd (omega (arith, e, (advance-Fires w t ts q i).1))

pub settle_busy :
    (P : Outcome → Type 0) (next : Run → Outcome) (r : Run)
    → (r.world.stopped ≡ true → P (returns r.world r.ret))
    → (r.world.stopped ≡ false → P (next r))
    → P (settle next (busy r))
unfolding settle
settle_busy P next r stop more = if_rule P r.world.stopped stop more

-- The ends of an iteration, by the number that it executed.
settle_rule :
    (P : Outcome → Type 0) (next : Run → Outcome) (r : Run) (n : ℕ)
    → (n ≡ 0 → P (returns r.world r.ret))
    → (0 < n → P (throws r.world))
    → (0 < n → r.world.stopped ≡ true → P (returns r.world r.ret))
    → (0 < n → (r' : Run) → r'.world ≡ r.world → P (next r'))
    → P (settle next (watch r n))
unfolding settle watch
settle_rule P next r zero none_left spin stop more = none_left refl
settle_rule P next r (suc n) none_left spin stop more =
    if_rule (λ t. P (settle next t)) (r.world.now == r.prev_time)
      (λ _.
        if_rule (λ t. P (settle next t)) (ltb max_stalled_iterations (suc r.stalled_iterations))
          (λ _. spin (omega arith))
          (λ _. settle_busy P next _ (stop (omega arith)) (λ _. more (omega arith) _ refl)))
      (λ _. settle_busy P next _ (stop (omega arith)) (λ _. more (omega arith) _ refl))

Ends : Outcome → Type 0
Ends (returns w n) = (w.stopped ≡ true) ⊎ (w.timer_queue ≡ [])
Ends _ = Unit

Ends-run :
    (poll : World → World × ℕ)
    → ((w : World) → IsValid w → IsValid (poll w).0)
    → (fuel : ℕ) (r : Run) → IsValid r.world
    → Ends (run poll fuel r)
unfolding Ends run turn
Ends-run poll keeps zero r i = tt
Ends-run poll keeps (suc fuel) r i =
    settle_rule Ends (run poll fuel) _ (executed poll r.world)
      (λ e. inr (idle_empty (poll r.world).0 _ refl (keeps r.world i) (omega (arith, e)))) (λ _. tt)
      (λ _ stop. inl stop)
      (λ _ r' e. Ends-run poll keeps fuel r' (rw e (advance-IsValid _ (keeps r.world i))))

-- While every handler keeps the timer queue valid, `run` returns only when the simulation was
-- stopped or no timer is pending.
pub run_returns :
    (poll : World → World × ℕ)
    → ((w : World) → IsValid w → IsValid (poll w).0)
    → (fuel : ℕ) (w w' : World) (n : ℕ) → IsValid w
    → run poll fuel (start w) ≡ returns w' n
    → (w'.stopped ≡ true) ⊎ (w'.timer_queue ≡ [])
unfolding Ends start
run_returns poll keeps fuel w w' n i e = subst Ends e (Ends-run poll keeps fuel (start w) i)

-- An iteration that keeps the property executes something and neither stops nor advances the clock.
abbrev pub Spins : (World → World × ℕ) → (World → Type 0) → Type 0
Spins poll P =
    (w : World)
    → P w
    → P (turned poll w)
      × ((turned poll w).now ≡ w.now)
      × ((turned poll w).stopped ≡ false)
      × (0 < executed poll w)

settle_spin :
    (next : Run → Outcome) (r : Run) (n : ℕ)
    → r.world.now ≡ r.prev_time
    → r.world.stopped ≡ false
    → 0 < n
    → settle next (watch r n) ≡ (
        if ltb max_stalled_iterations (suc r.stalled_iterations)
        then throws r.world
        else next (record r { stalled_iterations = suc r.stalled_iterations }))
unfolding settle watch
settle_spin next r zero h s c = absurd (omega arith)
settle_spin next r (suc n) h s c = ground arith

module _ (poll : World → World × ℕ) (P : World → Type 0) (s : Spins poll P) where
  out_at_zero : (r : Run) → run poll 0 r ≡ out_of_fuel
  unfolding run
  out_at_zero r = refl

  stepped : Run → Run
  stepped r = record {
    world = turned poll r.world;
    ret = r.ret + executed poll r.world;
    prev_time = r.prev_time;
    stalled_iterations = suc r.stalled_iterations;
  }

  spin_step :
      (fuel : ℕ) (r : Run)
      → P r.world
      → r.world.now ≡ r.prev_time
      → run poll (suc fuel) r ≡ (
          if ltb max_stalled_iterations (suc r.stalled_iterations)
          then throws (turned poll r.world)
          else run poll fuel (stepped r))
  unfolding run turn stepped
  spin_step fuel r p h =
      let (_, same, on, some_run) = s r.world p in
      settle_spin (run poll fuel)
        (record r { world = turned poll r.world; ret = r.ret + executed poll r.world })
        (executed poll r.world) (same ∙ h) on some_run

  -- The iterations up to the limit, from any count of stalled ones.
  spin :
      (fuel : ℕ) (r : Run)
      → P r.world
      → r.world.now ≡ r.prev_time
      → fuel + r.stalled_iterations ≡ 1000
      → (run poll fuel r ≡ out_of_fuel) × ((w' : World) × (run poll (suc fuel) r ≡ throws w'))
  unfolding stepped
  spin zero r p h c = (
    out_at_zero r,
    (
      turned poll r.world,
      spin_step 0 r p h
          ∙ rw (lt→ltb max_stalled_iterations (suc r.stalled_iterations) (omega arith)),
    ),
  )
  spin (suc fuel) r p h c =
      let (kept, same, _, _) = s r.world p in
      let (out, (w', thrown)) = spin fuel (stepped r) kept (same ∙ h) (omega arith) in
      let below : ltb max_stalled_iterations (suc r.stalled_iterations) ≡ false = ground arith in
      (spin_step fuel r p h ∙ rw below out, (w', spin_step (suc fuel) r p h ∙ rw below thrown))

-- A simulation that keeps executing handlers or timers while the simulated time stands still is
-- stopped by an exception in iteration 1001, and not before.
pub run_spinning :
    (poll : World → World × ℕ) (P : World → Type 0)
    → Spins poll P
    → (w : World) → P w
    → (run poll 1000 (start w) ≡ out_of_fuel)
      × ((w' : World) × (run poll 1001 (start w) ≡ throws w'))
unfolding start
run_spinning poll P s w p = spin poll P s 1000 (start w) p refl refl
