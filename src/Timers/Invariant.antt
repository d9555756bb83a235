-- ===== src/Timers/Invariant.antt =====
-- The invariant of the timer queue, kept by every operation on a timer and by the main loop.
use libsimulator.Base.Errors.{ErrorCode, no_error}
use libsimulator.Base.Int.{ℤ}
use libsimulator.Base.{
  ℕ, ◌<◌, ◌≡◌, refl, sym, subst, ◌⊎◌, true, false, List, [], ◌∷◌, Option, none, some, inl, inr,
  arith, leb, if◌then◌else◌, count, update, Bool-cases, if_rule, is_some,
}
use libsimulator.Timers.{
  Timer, World, expiry, add_timer, remove_timer, fired, post_handler, fire, retire, set_handler,
  cancel, arm, expires_at, expires_after, async_wait, fire_due, advance_on, advance,
}
use libsimulator.Timers.Queue.{
  IsSortedFrom, IsSortedFrom-mono, insert_timer-IsSortedFrom, erase_timer-IsSortedFrom,
  count-insert_timer, count-erase_timer,
}

-- The queue is in order of expiry, and holds each pending timer once and no other.
pub record IsValid (w : World) : Type 0 where
  pub sorted : IsSortedFrom (expiry w) 0 w.timer_queue
  pub queued : (t : ℕ) → count t w.timer_queue ≡ (if (w.timer t).expired then 0 else 1)

pub pending-count :
    (w : World) (t : ℕ) → IsValid w → (w.timer t).expired ≡ false → count t w.timer_queue ≡ 1
pending-count w t i p = ground (arith, i.queued t)

pub pending_of_count :
    (w : World) (t : ℕ) → IsValid w → 0 < count t w.timer_queue → (w.timer t).expired ≡ false
pending_of_count w t i c = ground (arith, i.queued t)

-- A change of one timer does not disturb a queue that does not hold it, nor one that keeps its expiry.
pub IsSortedFrom-set :
    (w : World) (t : ℕ) (v : Timer) (lo : ℕ) (xs : List ℕ)
    → ((v.expiration_time ≡ expiry w t) ⊎ (count t xs ≡ 0))
    → IsSortedFrom (expiry w) lo xs
    → IsSortedFrom (λ x. (update w.timer t v x).expiration_time) lo xs
IsSortedFrom-set w t v lo [] c s = tt
IsSortedFrom-set w t v lo (x ∷ xs) (inl c) s =
    ground (arith, IsSortedFrom-set w t v (expiry w x) xs (inl c) s.1)
IsSortedFrom-set w t v lo (x ∷ xs) (inr c) s =
    ground (arith, λ (e : count t xs ≡ 0). IsSortedFrom-set w t v (expiry w x) xs (inr e) s.1)

abbrev set_timer : World → ℕ → Timer → World
set_timer w t v = record w { timer = update w.timer t v }

-- The new fields of a timer that stays out of the queue.
set-IsValid :
    (w : World) (t : ℕ) (v : Timer)
    → v.expiration_time ≡ expiry w t
    → v.expired ≡ (w.timer t).expired
    → IsValid w
    → IsValid (set_timer w t v)
set-IsValid w t v e x i = record {
  sorted = IsSortedFrom-set w t v 0 w.timer_queue (inl e) i.sorted;
  queued = λ u. ground (arith, i.queued u);
}

post_handler-IsValid :
    (w : World) (h : Option ℕ) (ec : ErrorCode) → IsValid w → IsValid (post_handler w h ec)
post_handler-IsValid w none ec i = i
post_handler-IsValid w (some h) ec i = record { sorted = i.sorted; queued = i.queued }

pub fire-IsValid :
    (w : World) (t : ℕ) (ec : ErrorCode)
    → (w.timer t).expired ≡ true
    → IsValid w
    → IsValid (fire w t ec)
unfolding fire
fire-IsValid w t ec x i =
    post_handler-IsValid _ (w.timer t).handler ec
      (set-IsValid w t (fired (w.timer t)) refl (sym x) i)

-- A pending timer that expires and leaves the queue.
pub retire-IsValid :
    (w : World) (t : ℕ) → (w.timer t).expired ≡ false → IsValid w → IsValid (retire w t)
unfolding remove_timer
retire-IsValid w t x i =
    let s =
      IsSortedFrom-set w t (record (w.timer t) { expired = true }) 0 w.timer_queue (inl refl)
        i.sorted in
    record {
      sorted = erase_timer-IsSortedFrom _ 0 t w.timer_queue s;
      queued = λ u. ground (arith, count-erase_timer _ 0 u t w.timer_queue s, i.queued u);
    }

pub retire-expired : (w : World) (t : ℕ) → ((retire w t).timer t).expired ≡ true
unfolding remove_timer
retire-expired w t = ground arith

pub cancel-IsValid : (w : World) (t : ℕ) → IsValid w → IsValid (cancel w t).0
unfolding cancel
cancel-IsValid w t i = elim (Bool-cases (w.timer t).expired) [
  | inl e ↦ rw e i
  | inr e ↦ elim (Bool-cases (is_some (w.timer t).handler)) [
    | inl h ↦
        rw (e, h) (fire-IsValid (retire w t) t _ (retire-expired w t) (retire-IsValid w t e i))
    | inr h ↦ rw (e, h) (retire-IsValid w t e i)
  ]
]

pub cancel-expired : (w : World) (t : ℕ) → ((cancel w t).0.timer t).expired ≡ true
unfolding cancel fire remove_timer
cancel-expired w t = ground arith

pub arm-IsValid :
    (w : World) (t time : ℕ) → (w.timer t).expired ≡ true → IsValid w → IsValid (arm w t time)
unfolding add_timer
arm-IsValid w t time x i =
    let v : Timer = record (w.timer t) { expiration_time = time; expired = false } in
    let s = IsSortedFrom-set w t v 0 w.timer_queue (inr (ground (arith, i.queued t))) i.sorted in
    record {
      sorted = insert_timer-IsSortedFrom _ 0 t w.timer_queue (omega arith) s;
      queued = λ u. ground (
        arith,
        count-insert_timer (expiry (set_timer w t v)) u t w.timer_queue,
        i.queued u,
        i.queued t,
      );
    }

pub expires_at-IsValid : (w : World) (t time : ℕ) → IsValid w → IsValid (expires_at w t time).0
unfolding expires_at
expires_at-IsValid w t time i = arm-IsValid _ t time (cancel-expired w t) (cancel-IsValid w t i)

expires_after-IsValid : (w : World) (t : ℕ) (d : ℤ) → IsValid w → IsValid (expires_after w t d).0
unfolding expires_after
expires_after-IsValid w t d i = arm-IsValid _ t _ (cancel-expired w t) (cancel-IsValid w t i)

async_wait-IsValid : (w : World) (t h : ℕ) → IsValid w → IsValid (async_wait w t h)
unfolding async_wait
async_wait-IsValid w t h i =
    let set : IsValid (set_handler w t h) = set-IsValid w t _ refl refl i in
    if_rule IsValid (w.timer t).expired
      (λ e. fire-IsValid (set_handler w t h) t no_error (ground arith) set) (λ _. set)

-- The front of the queue is taken off and fires.
pub fire_front-IsValid :
    (w : World) (t : ℕ) (ts : List ℕ)
    → w.timer_queue ≡ t ∷ ts
    → IsValid w
    → IsValid (fire (record w { timer_queue = ts }) t no_error)
unfolding fire
fire_front-IsValid w t ts q i = post_handler-IsValid _ (w.timer t).handler no_error (record {
  sorted =
      IsSortedFrom-set w t (fired (w.timer t)) 0 ts (inl refl)
        (IsSortedFrom-mono _ 0 (expiry w t) ts (omega arith) front.1);
  queued = λ u. ground (arith, i.queued u);
})
  where
    front : IsSortedFrom (expiry w) 0 (t ∷ ts)
    front = subst (IsSortedFrom (expiry w) 0) q i.sorted

pub fire-queue : (w : World) (t : ℕ) (ec : ErrorCode) → (fire w t ec).timer_queue ≡ w.timer_queue
unfolding fire
fire-queue w t ec = ground arith

fire_due-IsValid :
    (w : World) (ts : List ℕ) → w.timer_queue ≡ ts → IsValid w → IsValid (fire_due w ts).0
unfolding fire_due
fire_due-IsValid w [] q i = rw (← q) i
fire_due-IsValid w (t ∷ ts) q i = elim (Bool-cases (leb (expiry w t) w.now)) [
  | inl due ↦ rw due (
      fire_due-IsValid (fire (record w { timer_queue = ts }) t no_error) ts
        (fire-queue _ t no_error) (fire_front-IsValid w t ts q i))
  | inr later ↦ rw (later, ← q) i
]

advance_on-IsValid :
    (w : World) (ts : List ℕ) → w.timer_queue ≡ ts → IsValid w → IsValid (advance_on w ts).0
unfolding advance_on
advance_on-IsValid w [] q i = i
advance_on-IsValid w (t ∷ ts) q i =
    fire_due-IsValid _ (t ∷ ts) q (record { sorted = i.sorted; queued = i.queued })

pub advance-IsValid : (w : World) → IsValid w → IsValid (advance w).0
unfolding advance
advance-IsValid w i = advance_on-IsValid w w.timer_queue refl i

-- The operations that touch the timer queue, as an application and the main loop make them.
pub data Call : Type 0 where
  cancels : ℕ → Call
  expires_ats async_waits : ℕ → ℕ → Call
  expires_afters : ℕ → ℤ → Call
  advances : Call

unfoldable pub apply : World → Call → World
apply w (cancels t) = (cancel w t).0
apply w (expires_ats t time) = (expires_at w t time).0
apply w (expires_afters t d) = (expires_after w t d).0
apply w (async_waits t h) = async_wait w t h
apply w advances = (advance w).0

pub apply-IsValid : (w : World) (c : Call) → IsValid w → IsValid (apply w c)
unfolding apply
apply-IsValid w (cancels t) i = cancel-IsValid w t i
apply-IsValid w (expires_ats t time) i = expires_at-IsValid w t time i
apply-IsValid w (expires_afters t d) i = expires_after-IsValid w t d i
apply-IsValid w (async_waits t h) i = async_wait-IsValid w t h i
apply-IsValid w advances i = advance-IsValid w i

unfoldable pub apply_all : World → List Call → World
apply_all w [] = w
apply_all w (c ∷ cs) = apply_all (apply w c) cs

-- Whatever sequence of cancel, expires_at, expires_after, async_wait and steps of the main loop is
-- made from a valid state, the timer queue stays in order of expiry and holds exactly the timers
-- that are pending, each once.
pub apply_all-IsValid : (w : World) (cs : List Call) → IsValid w → IsValid (apply_all w cs)
unfolding apply_all
apply_all-IsValid w [] i = i
apply_all-IsValid w (c ∷ cs) i = apply_all-IsValid (apply w c) cs (apply-IsValid w c i)
