-- ===== src/Timers/Loop/Abort.antt =====
-- The handler of `catch (...)` in simulation::run.
use libsimulator.Base.{
  ℕ, ◌<◌, ◌≡◌, refl, sym, ◌∙◌, true, List, [], ◌∷◌, inl, inr, arith, ◌==◌, ==_iff, count,
  Bool-cases,
}
use libsimulator.Timers.{World, cancel, fire, remove_timer}
use libsimulator.Timers.Invariant.{IsValid, cancel-IsValid, cancel-expired, pending-count}
use libsimulator.Timers.Loop.{cancel_all, abort_run}

cancel-expired_other :
    (w : World) (t u : ℕ) → (w.timer u).expired ≡ true → ((cancel w t).0.timer u).expired ≡ true
unfolding cancel fire remove_timer
cancel-expired_other w t u h = ground arith

cancel_all-IsValid : (w : World) (ts : List ℕ) → IsValid w → IsValid (cancel_all w ts)
unfolding cancel_all
cancel_all-IsValid w [] i = i
cancel_all-IsValid w (t ∷ ts) i = cancel_all-IsValid (cancel w t).0 ts (cancel-IsValid w t i)

cancel_all-expired_other :
    (w : World) (ts : List ℕ) (u : ℕ)
    → (w.timer u).expired ≡ true
    → ((cancel_all w ts).timer u).expired ≡ true
unfolding cancel_all
cancel_all-expired_other w [] u h = h
cancel_all-expired_other w (t ∷ ts) u h =
    cancel_all-expired_other (cancel w t).0 ts u (cancel-expired_other w t u h)

cancel_all-expired :
    (w : World) (ts : List ℕ) (u : ℕ) → 0 < count u ts → ((cancel_all w ts).timer u).expired ≡ true
unfolding cancel_all
cancel_all-expired w [] u c = absurd (omega arith)
cancel_all-expired w (t ∷ ts) u c = elim (Bool-cases (t == u)) [
  | inl e ↦
      cancel_all-expired_other (cancel w t).0 ts u
        (rw (sym ((==_iff t u).0 e)) (cancel-expired w t))
  | inr n ↦ cancel_all-expired (cancel w t).0 ts u (ground arith)
]

all_expired :
    (w : World) (u : ℕ) → IsValid w → ((cancel_all w w.timer_queue).timer u).expired ≡ true
all_expired w u i = elim (Bool-cases (w.timer u).expired) [
  | inl e ↦ cancel_all-expired_other w w.timer_queue u e
  | inr p ↦ cancel_all-expired w w.timer_queue u (omega (arith, pending-count w u i p))
]

empty_of_counts : (xs : List ℕ) → ((u : ℕ) → count u xs ≡ 0) → xs ≡ []
empty_of_counts [] h = refl
empty_of_counts (x ∷ xs) h = absurd (ground (arith, h x))

-- After an exception every timer has expired, no timer is pending, and the simulation is stopped.
pub abort_run-empty :
    (w : World)
    → IsValid w
    → ((t : ℕ) → ((abort_run w).timer t).expired ≡ true)
      × ((abort_run w).timer_queue ≡ [])
      × ((abort_run w).stopped ≡ true)
unfolding abort_run
abort_run-empty w i = (
  λ t. all_expired w t i,
  empty_of_counts _ (λ u. (cancel_all-IsValid w w.timer_queue i).queued u ∙ rw (all_expired w u i)),
  refl,
)
