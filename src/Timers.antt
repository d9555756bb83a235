-- ===== src/Timers.antt =====
-- high_resolution_timer.cpp, high_resolution_clock.cpp, and the timer queue and the main loop of
-- simulation.cpp. A timer and a handler are named by numbers; `World` is the clock, the
-- queue, the timers, and the handlers that were posted and have not run. A time point is a number
-- of nanoseconds since the epoch of the simulation.
pub mod Queue
pub mod Invariant
pub mod Order
pub mod Firing
pub mod Clock
pub mod Loop
mod Tests
use libsimulator.Base.Errors.{ErrorCode, no_error, operation_aborted}
use libsimulator.Base.Int.{ℤ, pos, negsuc}
use libsimulator.Base.{
  ℕ, suc, ◌+◌, ◌-◌, Bool, true, false, List, [], ◌∷◌, ◌++◌, Option, none, some, ltb, leb, ◌==◌,
  if◌then◌else◌, update, is_some,
}

pub record Timer : Type 0 where
  pub expiration_time : ℕ
  pub handler : Option ℕ
  pub expired : Bool

pub record World : Type 0 where
  pub now : ℕ
  pub timer_queue : List ℕ
  pub timer : ℕ → Timer
  pub posted : List (ℕ × ErrorCode)
  pub stopped : Bool

abbrev pub expiry : World → ℕ → ℕ
expiry w t = (w.timer t).expiration_time

-- `std::upper_bound` on the sorted queue, then `insert`: behind every timer that expires no later.
pub insert_timer : (ℕ → ℕ) → ℕ → List ℕ → List ℕ
insert_timer key t [] = t ∷ []
insert_timer key t (x ∷ xs) = if ltb (key t) (key x) then t ∷ x ∷ xs else x ∷ insert_timer key t xs

-- `std::equal_range` on the sorted queue, then `std::find` within the range, then `erase`.
pub erase_timer : (ℕ → ℕ) → ℕ → List ℕ → List ℕ
erase_timer key t [] = []
erase_timer key t (x ∷ xs) =
    if ltb (key t) (key x) then x ∷ xs else if x == t then xs else x ∷ erase_timer key t xs

pub add_timer : World → ℕ → World
add_timer w t = record w { timer_queue = insert_timer (expiry w) t w.timer_queue }

pub remove_timer : World → ℕ → World
remove_timer w t = record w { timer_queue = erase_timer (expiry w) t w.timer_queue }

-- `post(*m_io_service, std::bind(h, ec))`
abbrev pub post : World → ℕ → ErrorCode → World
post w h ec = record w { posted = w.posted ++ (h, ec) ∷ [] }

-- What `fire` does to the timer itself.
abbrev pub fired : Timer → Timer
fired t = record t { expired = true; handler = none }

abbrev pub post_handler : World → Option ℕ → ErrorCode → World
post_handler w none ec = w
post_handler w (some h) ec = post w h ec

pub fire : World → ℕ → ErrorCode → World
fire w t ec =
    post_handler (record w { timer = update w.timer t (fired (w.timer t)) }) (w.timer t).handler ec

-- `m_expired = true; remove_timer(this)`
abbrev pub retire : World → ℕ → World
retire w t =
    remove_timer (record w { timer = update w.timer t (record (w.timer t) { expired = true }) }) t

-- The number is what the call returns.
pub cancel : World → ℕ → World × ℕ
cancel w t =
    if (w.timer t).expired
    then (w, 0)
    else if is_some (w.timer t).handler
    then (fire (retire w t) t operation_aborted, 1)
    else (retire w t, 0)

-- `m_expiration_time = expiry_time; m_expired = false; add_timer(this)`
abbrev pub arm : World → ℕ → ℕ → World
arm w t time =
    add_timer
      (record w {
        timer = update w.timer t (record (w.timer t) { expiration_time = time; expired = false });
      })
      t

pub expires_at : World → ℕ → ℕ → World × ℕ
expires_at w t time = (arm (cancel w t).0 t time, (cancel w t).1)

-- A time point and a signed duration. Time points before the epoch are not modelled: the epoch
-- stands for them.
abbrev pub shifted : ℕ → ℤ → ℕ
shifted time (pos d) = time + d
shifted time (negsuc d) = time - suc d

pub expires_after : World → ℕ → ℤ → World × ℕ
expires_after w t d = (arm (cancel w t).0 t (shifted (cancel w t).0.now d), (cancel w t).1)

abbrev pub set_handler : World → ℕ → ℕ → World
set_handler w t h = record w { timer = update w.timer t (record (w.timer t) { handler = some h }) }

-- A timer has one handler: `assert(!m_handler)` stops a build with assertions, and without them the handler that
-- waits is overwritten, as here. add_timer also asserts that the simulation is not stopped.
pub async_wait : World → ℕ → ℕ → World
async_wait w t h =
    if (w.timer t).expired then fire (set_handler w t h) t no_error else set_handler w t h

-- `g_simulation_time += d` at the signed duration `d = till - since`.
pub fast_forward : ℕ → ℕ → ℕ → ℕ
fast_forward time till since = time + till - since

-- The inner loop of `run` over the front of the queue, with the number of timers fired.
pub fire_due : World → List ℕ → World × ℕ
fire_due w [] = (record w { timer_queue = [] }, 0)
fire_due w (t ∷ ts) =
    let rest : World × ℕ = fire_due (fire (record w { timer_queue = ts }) t no_error) ts in
    if leb (expiry w t) w.now then (rest.0, suc rest.1) else (record w { timer_queue = t ∷ ts }, 0)

-- The clock moves to the first expiry, and what is due fires.
pub advance_on : World → List ℕ → World × ℕ
advance_on w [] = (w, 0)
advance_on w (t ∷ ts) = fire_due (record w { now = fast_forward w.now (expiry w t) w.now }) (t ∷ ts)

-- The part of an iteration of `run` behind `poll`.
pub advance : World → World × ℕ
advance w = advance_on w w.timer_queue
