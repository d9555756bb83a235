-- ===== src/Timers/Order.antt =====
-- In which order timers fire, and what a cancelled timer leaves behind.
use libsimulator.Base.Errors.{operation_aborted}
use libsimulator.Base.{
  ℕ, ◌≤◌, ◌<◌, ◌≡◌, refl, ap, ◌∙◌, true, false, List, [], ◌∷◌, ◌++◌, some, inl, inr, arith, ltb,
  ltb→lt, ltb-false, count, Bool-cases, All,
}
use libsimulator.Timers.{World, expiry, insert_timer, add_timer, remove_timer, fire, retire, cancel}
use libsimulator.Timers.Queue.{IsSortedFrom}
use libsimulator.Timers.Invariant.{IsValid, cancel-IsValid, cancel-expired}

-- Every entry of a queue sorted from `lo` expires at `lo` or later.
pub All-above :
    (key : ℕ → ℕ) (lo m : ℕ) (xs : List ℕ)
    → m < lo
    → IsSortedFrom key lo xs
    → All (λ x. m < key x) xs
All-above key lo m [] h s = tt
All-above key lo m (x ∷ xs) h s = (omega arith, All-above key (key x) m xs (omega arith) s.1)

insert_timer-splits :
    (key : ℕ → ℕ) (t lo : ℕ) (xs : List ℕ)
    → IsSortedFrom key lo xs
    → (before after : List ℕ) × (insert_timer key t xs ≡ before ++ t ∷ after)
      × (xs ≡ before ++ after)
      × All (λ x. key x ≤ key t) before
      × All (λ x. key t < key x) after
unfolding insert_timer
insert_timer-splits key t lo [] s = ([], [], refl, refl, tt, tt)
insert_timer-splits key t lo (x ∷ xs) s =
    let (before, after, inserted, split, early, late) = insert_timer-splits key t (key x) xs s.1 in
    elim (Bool-cases (ltb (key t) (key x))) [
      | inl h ↦ (
        [],
        x ∷ xs,
        rw h,
        refl,
        tt,
        (ltb→lt _ _ h, All-above key (key x) (key t) xs (ltb→lt _ _ h) s.1),
      )
      | inr h ↦
          (x ∷ before, after, rw (h, inserted), ap (◌∷◌ x) split, (ltb-false _ _ h, early), late)
    ]

-- A timer is queued behind every timer that expires no later than it, also at the same time, and
-- before every timer that expires later; the order of the others does not change.
pub add_timer-stable :
    (w : World) (t : ℕ)
    → IsSortedFrom (expiry w) 0 w.timer_queue
    → (before after : List ℕ) × ((add_timer w t).timer_queue ≡ before ++ t ∷ after)
      × (w.timer_queue ≡ before ++ after)
      × All (λ x. expiry w x ≤ expiry w t) before
      × All (λ x. expiry w t < expiry w x) after
unfolding add_timer
add_timer-stable w t s = insert_timer-splits (expiry w) t 0 w.timer_queue s

cancel_again : (w : World) (t : ℕ) → (w.timer t).expired ≡ true → cancel w t ≡ (w, 0)
unfolding cancel
cancel_again w t e = rw e

cancel_waiting :
    (w : World) (t h : ℕ)
    → (w.timer t).expired ≡ false
    → (w.timer t).handler ≡ some h
    → cancel w t ≡ (fire (retire w t) t operation_aborted, 1)
unfolding cancel
cancel_waiting w t h pending waits = ground arith

fire-retire-posted :
    (w : World) (t h : ℕ)
    → (w.timer t).handler ≡ some h
    → (fire (retire w t) t operation_aborted).posted ≡ w.posted ++ (h, operation_aborted) ∷ []
unfolding fire remove_timer
fire-retire-posted w t h waits = ground arith

cancel-count :
    (w : World) (t : ℕ)
    → IsValid w
    → (w.timer t).expired ≡ false
    → count t (cancel w t).0.timer_queue ≡ 0
cancel-count w t i pending = (cancel-IsValid w t i).queued t ∙ rw (cancel-expired w t)

-- After `cancel` of a pending timer with a handler the timer is off the queue, the handler is
-- posted once with `operation_aborted` behind what was posted, the call returns 1, and a second
-- `cancel` does nothing and returns 0.
pub cancel_pending :
    (w : World) (t h : ℕ)
    → IsValid w
    → (w.timer t).expired ≡ false
    → (w.timer t).handler ≡ some h
    → ((cancel w t).1 ≡ 1)
      × ((cancel w t).0.posted ≡ w.posted ++ (h, operation_aborted) ∷ [])
      × (count t (cancel w t).0.timer_queue ≡ 0)
      × (cancel (cancel w t).0 t ≡ ((cancel w t).0, 0))
cancel_pending w t h i pending waits =
    let e = cancel_waiting w t h pending waits in
    (
      ap (λ r. r.1) e,
      ap (λ r. r.0.posted) e ∙ fire-retire-posted w t h waits,
      cancel-count w t i pending,
      cancel_again (cancel w t).0 t (cancel-expired w t),
    )
