-- ===== src/Timers/Firing.antt =====
-- What one iteration of the main loop fires.
use libsimulator.Base.Errors.{ErrorCode, no_error}
use libsimulator.Base.{
  ℕ, suc, ◌+◌, ◌-◌, ◌≤◌, ◌<◌, ◌≡◌, refl, sym, ap, subst, ◌∙◌, List, [], ◌∷◌, ◌++◌, Option, none,
  some, inl, inr, arith, leb, leb→le, leb-false, Option-cases, count, if_rule, All, length,
  append_assoc, append-nil,
}
use libsimulator.Timers.{World, expiry, fire, fast_forward, fire_due, advance_on, advance}
use libsimulator.Timers.Queue.{IsSortedFrom}
use libsimulator.Timers.Invariant.{IsValid, fire_front-IsValid, fire-queue}
use libsimulator.Timers.Order.{All-above}

abbrev completion : Option ℕ → List (ℕ × ErrorCode)
completion none = []
completion (some h) = (h, no_error) ∷ []

-- The completions of the handlers that wait on these timers.
abbrev pub completions : World → List ℕ → List (ℕ × ErrorCode)
completions w [] = []
completions w (t ∷ ts) = completion (w.timer t).handler ++ completions w ts

completions-fire :
    (w : World) (t : ℕ) (ec : ErrorCode) (ts xs : List ℕ)
    → count t xs ≡ 0
    → completions (fire (record w { timer_queue = ts }) t ec) xs ≡ completions w xs
unfolding fire
completions-fire w t ec ts [] c = refl
completions-fire w t ec ts (x ∷ xs) c = ground (arith, completions-fire w t ec ts xs)

fire-expiry :
    (w : World) (t : ℕ) (ec : ErrorCode) (ts : List ℕ) (x : ℕ)
    → expiry (fire (record w { timer_queue = ts }) t ec) x ≡ expiry w x
unfolding fire
fire-expiry w t ec ts x = ground arith

fire-now :
    (w : World) (t : ℕ) (ec : ErrorCode) (ts : List ℕ)
    → (fire (record w { timer_queue = ts }) t ec).now ≡ w.now
unfolding fire
fire-now w t ec ts = ground arith

fire-posted :
    (w : World) (t : ℕ) (ts : List ℕ)
    → (fire (record w { timer_queue = ts }) t no_error).posted
      ≡ w.posted ++ completion (w.timer t).handler
unfolding fire
fire-posted w t ts = elim (Option-cases (w.timer t).handler) [
  | inl e ↦ rw e (sym (append-nil w.posted))
  | inr (h, e) ↦ rw e
]

count-append : (i : ℕ) (xs ys : List ℕ) → count i (xs ++ ys) ≡ count i xs + count i ys
count-append i [] ys = omega arith
count-append i (x ∷ xs) ys = omega (arith, count-append i xs ys)

-- What the inner loop of `run` did: the timers that fired, and what is left.
pub record Fires (w : World) (ts : List ℕ) (r : World × ℕ) : Type 0 where
  pub due : List ℕ
  pub splits : ts ≡ due ++ r.0.timer_queue
  pub due_now : All (λ x. expiry w x ≤ w.now) due
  pub rest_later : All (λ x. w.now < expiry w x) r.0.timer_queue
  pub posts : r.0.posted ≡ w.posted ++ completions w due
  pub counts : r.1 ≡ length due
  pub same_now : r.0.now ≡ w.now
  pub same_expiry : (x : ℕ) → expiry r.0 x ≡ expiry w x

All-expiry-fire :
    (w : World) (t m : ℕ) (ec : ErrorCode) (ts xs : List ℕ)
    → All (λ x. m < expiry (fire (record w { timer_queue = ts }) t ec) x) xs
    → All (λ x. m < expiry w x) xs
All-expiry-fire w t m ec ts [] h = tt
All-expiry-fire w t m ec ts (x ∷ xs) h =
    (omega (arith, h.0, fire-expiry w t ec ts x), All-expiry-fire w t m ec ts xs h.1)

All-expiry_le-fire :
    (w : World) (t m : ℕ) (ec : ErrorCode) (ts xs : List ℕ)
    → All (λ x. expiry (fire (record w { timer_queue = ts }) t ec) x ≤ m) xs
    → All (λ x. expiry w x ≤ m) xs
All-expiry_le-fire w t m ec ts [] h = tt
All-expiry_le-fire w t m ec ts (x ∷ xs) h =
    (omega (arith, h.0, fire-expiry w t ec ts x), All-expiry_le-fire w t m ec ts xs h.1)

-- One more timer in front of those that the rest of the loop fires.
Fires-cons :
    (w : World) (t : ℕ) (ts : List ℕ) (r : World × ℕ)
    → expiry w t ≤ w.now
    → count t ts ≡ 0
    → Fires (fire (record w { timer_queue = ts }) t no_error) ts r
    → Fires w (t ∷ ts) (r.0, suc r.1)
Fires-cons w t ts r due c f = record {
  due = t ∷ f.due;
  splits = ap (◌∷◌ t) f.splits;
  due_now = (
    due,
    All-expiry_le-fire w t w.now no_error ts f.due (rw (fire-now w t no_error ts) at f.due_now),
  );
  rest_later =
      All-expiry-fire w t w.now no_error ts r.0.timer_queue
        (rw (fire-now w t no_error ts) at f.rest_later);
  posts =
      f.posts
      ∙ rw (fire-posted w t ts, completions-fire w t no_error ts f.due absent)
          (append_assoc w.posted (completion (w.timer t).handler) (completions w f.due));
  counts = ap suc f.counts;
  same_now = f.same_now ∙ fire-now w t no_error ts;
  same_expiry = λ x. f.same_expiry x ∙ fire-expiry w t no_error ts x;
}
  where
    absent : count t f.due ≡ 0
    absent = omega (arith, ap (count t) f.splits, count-append t f.due r.0.timer_queue)

fire_due-Fires :
    (w : World) (ts : List ℕ) → w.timer_queue ≡ ts → IsValid w → Fires w ts (fire_due w ts)
unfolding fire_due
fire_due-Fires w [] q i = record {
  due = [];
  splits = refl;
  due_now = tt;
  rest_later = tt;
  posts = sym (append-nil w.posted);
  counts = refl;
  same_now = refl;
  same_expiry = λ x. refl;
}
fire_due-Fires w (t ∷ ts) q i =
    let rest =
      fire_due-Fires (fire (record w { timer_queue = ts }) t no_error) ts
        (fire-queue (record w { timer_queue = ts }) t no_error) (fire_front-IsValid w t ts q i) in
    let s : IsSortedFrom (expiry w) 0 (t ∷ ts) = subst (IsSortedFrom (expiry w) 0) q i.sorted in
    if_rule (Fires w (t ∷ ts)) (leb (expiry w t) w.now)
      (λ due. Fires-cons w t ts _ (leb→le _ _ due) (ground (arith, i.queued t)) rest)
      λ later. record {
        due = [];
        splits = refl;
        due_now = tt;
        rest_later = (
          leb-false _ _ later,
          All-above (expiry w) (expiry w t) w.now ts (leb-false _ _ later) s.1,
        );
        posts = sym (append-nil w.posted);
        counts = refl;
        same_now = refl;
        same_expiry = λ x. refl;
      }

fire_due_pos : (w : World) (t : ℕ) (ts : List ℕ) → expiry w t ≤ w.now → 0 < (fire_due w (t ∷ ts)).1
unfolding fire_due
fire_due_pos w t ts h =
    if_rule (λ (r : World × ℕ). 0 < r.1) (leb (expiry w t) w.now) (λ _. omega arith)
      (λ e. absurd (omega (arith, leb-false _ _ e)))

pub advance_on_cons :
    (w : World) (t : ℕ) (ts : List ℕ)
    → advance_on w (t ∷ ts) ≡ fire_due (record w { now = expiry w t }) (t ∷ ts)
unfolding advance_on fast_forward
advance_on_cons w t ts = rw (now_eq w.now (expiry w t))
  where
    now_eq : (a b : ℕ) → a + b - a ≡ b
    now_eq a b = omega arith

pub advance_cons :
    (w : World) (t : ℕ) (ts : List ℕ)
    → w.timer_queue ≡ t ∷ ts
    → advance w ≡ fire_due (record w { now = expiry w t }) (t ∷ ts)
unfolding advance
advance_cons w t ts q = ap (advance_on w) q ∙ advance_on_cons w t ts

-- Each timer that fires leaves the queue.
pub length-fire_due :
    (w : World) (ts : List ℕ) → length (fire_due w ts).0.timer_queue + (fire_due w ts).1 ≡ length ts
unfolding fire_due
length-fire_due w [] = refl
length-fire_due w (t ∷ ts) =
    ground (arith, length-fire_due (fire (record w { timer_queue = ts }) t no_error) ts)

pub advance_nil : (w : World) → w.timer_queue ≡ [] → advance w ≡ (w, 0)
unfolding advance advance_on
advance_nil w q = ap (advance_on w) q

pub length-advance :
    (w : World) (q : List ℕ)
    → w.timer_queue ≡ q
    → length (advance w).0.timer_queue + (advance w).1 ≡ length q
length-advance w [] q = omega (
  arith,
  ap length q,
  ap (λ (r : World × ℕ). length r.0.timer_queue) (advance_nil w q),
  ap (λ (r : World × ℕ). r.1) (advance_nil w q),
)
length-advance w (t ∷ ts) q = rw (advance_cons w t ts q) (length-fire_due _ (t ∷ ts))

-- One iteration of the main loop over a valid state with pending timers moves the clock to the
-- first expiry and fires a front part of the queue, at least one timer: exactly the timers that
-- are due then. Their handlers are posted in queue order with no error behind what was posted, the
-- rest of the queue is left as it was, and the number returned is that of the timers fired.
pub advance-Fires :
    (w : World) (t : ℕ) (ts : List ℕ)
    → w.timer_queue ≡ t ∷ ts
    → IsValid w
    → Fires (record w { now = expiry w t }) w.timer_queue (advance w) × (0 < (advance w).1)
advance-Fires w t ts q i =
    subst (λ xs. Fires at_first xs (advance w) × (0 < (advance w).1)) (sym q)
      (subst (λ r. Fires at_first (t ∷ ts) r × (0 < r.1)) (sym (advance_cons w t ts q))
        (
          fire_due-Fires at_first (t ∷ ts) q (record { sorted = i.sorted; queued = i.queued }),
          fire_due_pos at_first t ts (omega arith),
        ))
  where
    at_first : World
    at_first = record w { now = expiry w t }
