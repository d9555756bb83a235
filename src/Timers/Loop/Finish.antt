-- ===== src/Timers/Loop/Finish.antt =====
-- simulation::run with handlers that bring no work of their own.
use libsimulator.Base.{ℕ, ◌+◌, ◌*◌, ◌≤◌, min, length, ◌≡◌, ◌⊎◌, true, []}
use libsimulator.Timers.{World}
use libsimulator.Timers.Invariant.{IsValid}
use libsimulator.Timers.Loop.{Outcome, returns}

-- The end that is wished for: `run` returns, and unless it was stopped no timer and no handler is left.
Finished : Outcome → Type 0
Finished (returns w n) = (w.stopped ≡ true) ⊎ ((w.timer_queue ≡ []) × (w.posted ≡ []))
Finished _ = ⊥

-- Handlers that keep the timer queue valid, add no timer to it and post no handler: a poll runs all
-- that were posted, and no others.
pub record IsPassive (poll : World → World × ℕ) : Type 0 where
  pub keeps : (w : World) → IsValid w → IsValid (poll w).0
  pub arms_none : (w : World) → length (poll w).0.timer_queue ≤ length w.timer_queue
  pub runs_all : (w : World) → (poll w).0.posted ≡ []
  pub counts : (w : World) → (poll w).1 ≤ length w.posted

module _ (poll : World → World × ℕ) (p : IsPassive poll) where
  -- What is left to do.
  abbrev work : World → ℕ
  work w = 2 * length w.timer_queue + min 1 (length w.posted)
