-- ===== src/Timers/Loop.antt =====
-- simulation::run. The handlers that `m_service.poll()` calls are the user's and the network's: a
-- function on the world that also returns how many ran. The loop takes fuel for its iterations.
pub mod Progress
pub mod Finish
pub mod Abort
use libsimulator.Base.{
  ℕ, zero, suc, ◌+◌, ◌≤◌, ◌<◌, ◌≡◌, ◌≢◌, ◌⊎◌, refl, sym, ap, subst, ◌∙◌, Bool, true, false, not,
  ◌&&◌, List, [], ◌∷◌, inl, inr, arith, ltb, ltb→lt, ltb-false, ◌==◌, if◌then◌else◌, count,
  Bool-cases, if_rule,
}
use libsimulator.Timers.{World, cancel, fire, remove_timer, advance, advance_on}
use libsimulator.Timers.Invariant.{
  IsValid, advance-IsValid, cancel-IsValid, cancel-expired, pending-count,
}
use libsimulator.Timers.Firing.{advance-Fires}

-- The world and the local variables of `run`.
pub record Run : Type 0 where
  pub world : World
  pub ret : ℕ
  pub prev_time : ℕ
  pub stalled_iterations : ℕ

abbrev pub max_stalled_iterations : ℕ
max_stalled_iterations = 1000

pub data Outcome : Type 0 where
  returns : World → ℕ → Outcome
  throws : World → Outcome
  out_of_fuel : Outcome

unfoldable pub start : World → Run
start w = record { world = w; ret = 0; prev_time = w.now; stalled_iterations = 0 }

-- What one iteration leads to, by the number of handlers and timers that it executed.
pub data Turn : Type 0 where
  busy idle : Run → Turn
  stuck : World → Turn

-- `if (last_executed > 0) { if (now == prev_time) … }`
unfoldable pub watch : Run → ℕ → Turn
watch r zero = idle r
watch r (suc n) =
    if r.world.now == r.prev_time
    then if ltb max_stalled_iterations (suc r.stalled_iterations)
      then stuck r.world
      else busy (record r { stalled_iterations = suc r.stalled_iterations })
    else busy (record r { stalled_iterations = 0; prev_time = r.world.now })

-- The end of an iteration: `while (last_executed > 0 && !m_stopped)`.
unfoldable pub settle : (Run → Outcome) → Turn → Outcome
settle next (stuck w) = throws w
settle next (idle r) = returns r.world r.ret
settle next (busy r) = if r.world.stopped then returns r.world r.ret else next r

module _ (poll : World → World × ℕ) where
  -- The handlers of one `poll`, then the timers.
  abbrev pub turned : World → World
  turned w = (advance (poll w).0).0

  abbrev pub executed : World → ℕ
  executed w = (poll w).1 + (advance (poll w).0).1

  unfoldable pub turn : Run → Turn
  turn r =
      watch (record r { world = turned r.world; ret = r.ret + executed r.world }) (executed r.world)

  unfoldable pub run : ℕ → Run → Outcome
  run zero r = out_of_fuel
  run (suc fuel) r = settle (run fuel) (turn r)

-- The handler of `catch (...)` as far as it concerns the timers: it cancels a copy of the queue.
pub cancel_all : World → List ℕ → World
cancel_all w [] = w
cancel_all w (t ∷ ts) = cancel_all (cancel w t).0 ts

pub abort_run : World → World
abort_run w = record (cancel_all w w.timer_queue) { stopped = true }
