-- ===== src/Timers/Tests.antt =====
-- Runs of the timer operations, and instances of the theorems about them.
use libsimulator.Base.Errors.{no_error}
use libsimulator.Base.Int.{pos}
use libsimulator.Base.{
  ℕ, ◌<◌, ◌≤◌, ◌≡◌, ◌⊎◌, refl, true, false, List, [], ◌∷◌, ◌++◌, none, arith, All, length,
}
use libsimulator.Timers.{
  Timer, World, expiry, insert_timer, add_timer, fire, cancel, expires_at, expires_after,
  async_wait, fast_forward, fire_due, advance_on, advance,
}
use libsimulator.Timers.Invariant.{
  IsValid, Call, expires_ats, expires_afters, async_waits, apply, apply_all, apply_all-IsValid,
}
use libsimulator.Timers.Order.{add_timer-stable}
use libsimulator.Timers.Firing.{Fires, advance-Fires}
use libsimulator.Timers.Clock.{IsTimely, apply-IsTimely}
use libsimulator.Timers.Loop.{throws, out_of_fuel, start, run, turn, watch, settle, abort_run}
use libsimulator.Timers.Loop.Progress.{run_returns, Spins, run_spinning}
use libsimulator.Timers.Loop.Abort.{abort_run-empty}

abbrev idle_timer : Timer
idle_timer = record { expiration_time = 0; handler = none; expired = true }

-- Time 100, and no timer pending.
abbrev fresh : World
fresh = record {
  now = 100;
  timer_queue = [];
  timer = λ t. idle_timer;
  posted = [];
  stopped = false;
}

fresh-IsValid : IsValid fresh
fresh-IsValid = record { sorted = tt; queued = λ t. refl }

-- Timers 1 and 2 at time 150, timer 3 at time 120; handlers 11 and 12 wait on the first two.
abbrev calls : List Call
calls =
    expires_ats 1 150
    ∷ async_waits 1 11
    ∷ expires_afters 2 (pos 50)
    ∷ async_waits 2 12
    ∷ expires_ats 3 120
    ∷ []

loaded : World
loaded = apply_all fresh calls

loaded_queue : loaded.timer_queue ≡ 3 ∷ 1 ∷ 2 ∷ []
unfolding loaded apply_all apply expires_at expires_after async_wait cancel add_timer insert_timer
loaded_queue = refl

apply_all-IsValid_example : IsValid loaded
unfolding loaded
apply_all-IsValid_example = apply_all-IsValid fresh calls fresh-IsValid

-- The first iteration fires timer 3, the second one timers 1 and 2 in the order of their start.
loaded_twice : (advance (advance loaded).0).0.posted ≡ (11, no_error) ∷ (12, no_error) ∷ []
unfolding loaded apply_all apply expires_at expires_after async_wait cancel add_timer insert_timer
    advance advance_on fire_due fire fast_forward
loaded_twice = refl

add_timer-stable_example :
    (before after : List ℕ) × ((add_timer loaded 9).timer_queue ≡ before ++ 9 ∷ after)
    × (loaded.timer_queue ≡ before ++ after)
    × All (λ x. expiry loaded x ≤ expiry loaded 9) before
    × All (λ x. expiry loaded 9 < expiry loaded x) after
add_timer-stable_example = add_timer-stable loaded 9 apply_all-IsValid_example.sorted

advance-Fires_example :
    Fires (record loaded { now = expiry loaded 3 }) loaded.timer_queue (advance loaded)
    × (0 < (advance loaded).1)
advance-Fires_example = advance-Fires loaded 3 (1 ∷ 2 ∷ []) loaded_queue apply_all-IsValid_example

fresh-IsTimely : IsTimely fresh
fresh-IsTimely = record { valid = fresh-IsValid; timely = λ t p. absurd (cc) }

apply-IsTimely_example :
    IsTimely (apply fresh (expires_ats 1 150)) × (100 ≤ (apply fresh (expires_ats 1 150)).now)
apply-IsTimely_example = apply-IsTimely fresh (expires_ats 1 150) fresh-IsTimely (omega arith)

-- No handler runs; no work but the timers.
abbrev quiet : World → World × ℕ
quiet w = (w, 0)

run_returns_example : (fresh.stopped ≡ true) ⊎ (fresh.timer_queue ≡ [])
unfolding run turn watch settle start advance advance_on
run_returns_example = run_returns quiet (λ w i. i) 1 fresh fresh 0 fresh-IsValid refl

-- The handlers that were posted do nothing.
abbrev idle : World → World × ℕ
idle w = (record w { posted = [] }, length w.posted)

-- One handler runs in each iteration, for ever.
abbrev restless : World → World × ℕ
restless w = (w, 1)

IsRestless : World → Type 0
IsRestless w = (w.timer_queue ≡ []) × (w.stopped ≡ false)

restless-Spins : Spins restless IsRestless
unfolding IsRestless advance advance_on
restless-Spins w (q, s) = rw q ((q, s), refl, s, omega arith)

run_spinning_example :
    (run restless 1000 (start fresh) ≡ out_of_fuel)
    × ((w : World) × (run restless 1001 (start fresh) ≡ throws w))
unfolding IsRestless
run_spinning_example = run_spinning restless IsRestless restless-Spins fresh (refl, refl)

abort_run-empty_example :
    ((t : ℕ) → ((abort_run loaded).timer t).expired ≡ true)
    × ((abort_run loaded).timer_queue ≡ [])
    × ((abort_run loaded).stopped ≡ true)
abort_run-empty_example = abort_run-empty loaded apply_all-IsValid_example
