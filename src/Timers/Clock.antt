-- ===== src/Timers/Clock.antt =====
-- The simulated clock over the calls on timers: when it is monotone, and what turns it back.
use libsimulator.Base.Int.{ℤ, pos, negsuc, neg_part}
use libsimulator.Base.{
  ℕ, ◌≤◌, ◌<◌, ◌≡◌, refl, ap, subst, false, List, [], ◌∷◌, inl, inr, arith, ◌==◌, ==_iff, count,
  Bool-cases, All,
}
use libsimulator.Timers.{
  shifted, World, expiry, add_timer, remove_timer, fire, arm, cancel, expires_at, expires_after,
  async_wait, advance,
}
use libsimulator.Timers.Queue.{IsSortedFrom}
use libsimulator.Timers.Invariant.{
  IsValid, Call, cancels, expires_ats, expires_afters, async_waits, advances, apply,
  advance-IsValid, apply-IsValid, expires_at-IsValid, pending-count, pending_of_count,
}
use libsimulator.Timers.Firing.{advance-Fires, advance_nil}

-- The first entry of a sorted queue expires no later than any entry.
head_le :
    (key : ℕ → ℕ) (lo x t : ℕ) (xs : List ℕ)
    → IsSortedFrom key lo (x ∷ xs)
    → 0 < count t (x ∷ xs)
    → key x ≤ key t
head_le key lo x t [] s c = ground arith
head_le key lo x t (y ∷ ys) s c = ground (arith, head_le key (key x) y t ys s.1)

advance_le :
    (w : World) (t : ℕ) (q : List ℕ)
    → w.timer_queue ≡ q
    → IsValid w
    → (w.timer t).expired ≡ false
    → (advance w).0.now ≤ expiry w t
advance_le w t [] q i p = absurd (omega (arith, ap (count t) q, pending-count w t i p))
advance_le w t (x ∷ xs) q i p =
    let first : expiry w x ≤ expiry w t =
      head_le (expiry w) 0 x t xs (subst (IsSortedFrom (expiry w) 0) q i.sorted)
        (omega (arith, ap (count t) q, pending-count w t i p)) in
    omega (arith, first, (advance-Fires w x xs q i).0.same_now)

expires_at-pending :
    (w : World) (t time : ℕ)
    → (((expires_at w t time).0.timer t).expired ≡ false)
      × (expiry (expires_at w t time).0 t ≡ time)
unfolding expires_at add_timer
expires_at-pending w t time = ground arith

-- From a valid state, `expires_at` with a time point before the present makes the next iteration
-- of the main loop turn the clock back to that time point or before.
pub expires_at_past :
    (w : World) (t time : ℕ)
    → IsValid w
    → time < w.now
    → ((advance (expires_at w t time).0).0.now ≤ time)
      × ((advance (expires_at w t time).0).0.now < w.now)
expires_at_past w t time i h =
    let (pending, at) = expires_at-pending w t time in
    let back =
      advance_le (expires_at w t time).0 t _ refl (expires_at-IsValid w t time i) pending in
    (omega (arith, back, at), omega (arith, back, at))

-- No timer is pending that expires before the present.
pub record IsTimely (w : World) : Type 0 where
  pub valid : IsValid w
  pub timely : (t : ℕ) → (w.timer t).expired ≡ false → w.now ≤ expiry w t

-- The call gives no time point in the past, and no negative duration.
abbrev pub LooksAhead : World → Call → Type 0
LooksAhead w (expires_ats t time) = w.now ≤ time
LooksAhead w (expires_afters t d) = neg_part d ≡ 0
LooksAhead w _ = Unit

-- A call keeps the pending timers timely, and does not turn the clock back.
abbrev Advances : World → World → Type 0
Advances w w' = ((t : ℕ) → (w'.timer t).expired ≡ false → w'.now ≤ expiry w' t) × (w.now ≤ w'.now)

cancel-Advances : (w : World) (t : ℕ) → IsTimely w → Advances w (cancel w t).0
unfolding cancel fire remove_timer
cancel-Advances w t i = (λ u p. ground (arith, i.timely u), ground arith)

cancel-now : (w : World) (t : ℕ) → (cancel w t).0.now ≡ w.now
unfolding cancel fire remove_timer
cancel-now w t = ground arith

arm-Advances :
    (w w' : World) (t time : ℕ) → Advances w w' → w'.now ≤ time → Advances w (arm w' t time)
unfolding add_timer
arm-Advances w w' t time a h = (λ u p. ground (arith, a.0 u), ground arith)

async_wait-Advances : (w : World) (t h : ℕ) → IsTimely w → Advances w (async_wait w t h)
unfolding async_wait fire
async_wait-Advances w t h i = (λ u p. ground (arith, i.timely u), ground arith)

pub All_at : (P : ℕ → Type 0) (t : ℕ) (xs : List ℕ) → All P xs → 0 < count t xs → P t
All_at P t [] a c = absurd (omega arith)
All_at P t (x ∷ xs) a c = elim (Bool-cases (x == t)) [
  | inl e ↦ subst P ((==_iff x t).0 e) a.0
  | inr n ↦ All_at P t xs a.1 (ground arith)
]

advance-Advances :
    (w : World) (q : List ℕ) → w.timer_queue ≡ q → IsTimely w → Advances w (advance w).0
advance-Advances w [] q i = rw (advance_nil w q) (i.timely, omega arith)
advance-Advances w (x ∷ xs) q i =
    let (f, _) = advance-Fires w x xs q i.valid in
    let v = advance-IsValid w i.valid in
    let first = pending_of_count w x i.valid (rw q (ground arith)) in
    (
      λ u p. omega (
        arith,
        All_at (λ y. expiry w x < expiry w y) u _ f.rest_later
            (omega (arith, pending-count (advance w).0 u v p)),
        f.same_now,
        f.same_expiry u,
      ),
      omega (arith, f.same_now, i.timely x first),
    )

shifted_le : (time : ℕ) (d : ℤ) → neg_part d ≡ 0 → time ≤ shifted time d
shifted_le time (pos d) h = omega arith
shifted_le time (negsuc d) h = absurd (omega (arith, h))

apply-Advances : (w : World) (c : Call) → IsTimely w → LooksAhead w c → Advances w (apply w c)
unfolding apply expires_at expires_after
apply-Advances w (cancels t) i h = cancel-Advances w t i
apply-Advances w (expires_ats t time) i h =
    arm-Advances w (cancel w t).0 t time (cancel-Advances w t i) (rw (cancel-now w t) h)
apply-Advances w (expires_afters t d) i h =
    arm-Advances w (cancel w t).0 t _ (cancel-Advances w t i) (shifted_le (cancel w t).0.now d h)
apply-Advances w (async_waits t k) i h = async_wait-Advances w t k i
apply-Advances w advances i h = advance-Advances w w.timer_queue refl i

-- While no time point before the present is given to `expires_at` and no negative duration to
-- `expires_after`, no call turns the clock back,
-- and no timer is pending that expires before the present.
pub apply-IsTimely :
    (w : World) (c : Call)
    → IsTimely w
    → LooksAhead w c
    → IsTimely (apply w c) × (w.now ≤ (apply w c).now)
apply-IsTimely w c i h =
    let (t, n) = apply-Advances w c i h in
    (record { valid = apply-IsValid w c i.valid; timely = t }, n)
