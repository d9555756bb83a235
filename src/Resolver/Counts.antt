-- ===== src/Resolver/Counts.antt =====
-- How often a handler of resolver.cpp waits and was completed, and what each operation keeps of it.
use libsimulator.Base.{
  ℕ, ◌≡◌, refl, ap₂, ◌∙◌, ◌+◌, List, [], ◌∷◌, ◌++◌, Option, some, arith, ◌==◌, if◌then◌else◌,
}
use libsimulator.Resolver.{
  Resolver, Result, Effect, completed, wait_for_front, aborted, cancel, Call,
}

-- How often a handler waits in the queue, and how often it was completed.
unfoldable pub waiting : ℕ → List Result → ℕ
waiting h [] = 0
waiting h (v ∷ q) = (if v.handler == h then 1 else 0) + waiting h q

unfoldable pub done : ℕ → List Effect → ℕ
done h [] = 0
done h (completed i ec ips ∷ es) = (if i == h then 1 else 0) + done h es

pub waiting-append : (h : ℕ) (p q : List Result) → waiting h (p ++ q) ≡ waiting h p + waiting h q
unfolding waiting
waiting-append h [] q = omega arith
waiting-append h (v ∷ p) q = omega (arith, waiting-append h p q)

pub waiting-behind :
    (h : ℕ) (q : List Result) (v : Result)
    → waiting h (q ++ v ∷ []) ≡ waiting h q + (if v.handler == h then 1 else 0)
unfolding waiting
waiting-behind h q v = omega (arith, waiting-append h q (v ∷ []))

pub done-append : (h : ℕ) (p q : List Effect) → done h (p ++ q) ≡ done h p + done h q
unfolding done
done-append h [] q = omega arith
done-append h (completed i ec ips ∷ p) q = omega (arith, done-append h p q)

pub done-aborted : (h : ℕ) (q : List Result) → done h (aborted q) ≡ waiting h q
unfolding done waiting aborted
done-aborted h [] = refl
done-aborted h (v ∷ q) = omega (arith, done-aborted h q)

-- A call from outside, or the end of a wait with the calls that the handler makes.
pub data Event : Type 0 where
  calls : Call → Event
  fires : List Call → Event

-- Whether a handler comes with the call.
abbrev pub gives : ℕ → Call → ℕ
gives h (Call.resolve now hostname service handler) = if handler == h then 1 else 0
gives h Call.cancels = 0

unfoldable pub given : ℕ → List Call → ℕ
given h [] = 0
given h (c ∷ cs) = gives h c + given h cs

abbrev pub brings : ℕ → Event → ℕ
brings h (calls c) = gives h c
brings h (fires during) = given h during

unfoldable pub brought : ℕ → List Event → ℕ
brought h [] = 0
brought h (e ∷ es) = brings h e + brought h es

-- The handlers that wait and those that are completed, together.
abbrev pub total : ℕ → Resolver → ℕ
total h r = waiting h r.queue + done h r.log

-- A look-up that waits has the timer set to the end of the first one.
abbrev pub Attended : List Result → Option ℕ → Type 0
Attended [] timer = Unit
Attended (v ∷ rest) timer = timer ≡ some v.completion_time

pub wait_for_front-Attended :
    (q : List Result) (t : Option ℕ) (l : List Effect)
    → let r = wait_for_front (record { queue = q; timer = t; log = l }) in
      (r.queue ≡ q) × (r.log ≡ l) × Attended r.queue r.timer
unfolding wait_for_front
wait_for_front-Attended [] t l = (refl, refl, tt)
wait_for_front-Attended (v ∷ rest) t l = (refl, refl, refl)

-- The total that an event leaves, with the timer set.
pub record Keeps (n : ℕ) (h : ℕ) (r : Resolver) : Type 0 where
  pub counted : total h r ≡ n
  pub attended : Attended r.queue r.timer

pub waits_for_front :
    (h n : ℕ) (q : List Result) (t : Option ℕ) (l : List Effect)
    → waiting h q + done h l ≡ n
    → Keeps n h (wait_for_front (record { queue = q; timer = t; log = l }))
waits_for_front h n q t l e =
    let (a, b, c) = wait_for_front-Attended q t l in
    record { counted = ap₂ (λ x y. waiting h x + done h y) a b ∙ e; attended = c }

pub cancel-Keeps : (h : ℕ) (r : Resolver) → Keeps (total h r) h (cancel r)
unfolding cancel waiting
cancel-Keeps h r = record {
  counted = omega (arith, done-append h r.log (aborted r.queue), done-aborted h r.queue);
  attended = tt;
}
