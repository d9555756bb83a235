-- ===== src/Resolver/Once.antt =====
-- Every handler is completed exactly once, and none waits for a timer that is not set.
use libsimulator.Base.{
  ℕ, ap₂, zero, suc, ◌≡◌, refl, ap, subst, ◌∙◌, ◌+◌, List, [], ◌∷◌, ◌++◌, Option, none, some, arith,
  if◌then◌else◌, length, option_rule, if_rule,
}
use libsimulator.Net.Address.{Address}
use libsimulator.Http.{Text}
use libsimulator.Network.{Config}
use libsimulator.Resolver.{
  Resolver, Result, Effect, completed, on_lookup, fire, call, call_all, rearm, wait_for_front,
}
use libsimulator.Resolver.Counts.{
  waiting, done, done-append, Event, calls, fires, given, brings, brought, total, Attended,
  wait_for_front-Attended,
}
use libsimulator.Resolver.Calls.{Keeps?, call-Keeps, fire-Keeps, has_caller}

module _ (make_address : Text → Option Address) (config : Config) (requestor : Address) where
  unfoldable pub apply : Event → Resolver → Option Resolver
  apply (calls c) r = call make_address config requestor c r
  apply (fires during) r =
      if has_caller r.timer r.queue during
      then fire make_address config requestor r during
      else none

  unfoldable pub apply_all : List Event → Resolver → Option Resolver
  apply_all [] r = some r
  apply_all (e ∷ es) r = elim (apply e r) [ none ↦ none | some r' ↦ apply_all es r' ]

  apply-Keeps :
      (h : ℕ) (e : Event) (r : Resolver)
      → Attended r.queue r.timer
      → Keeps? (total h r + brings h e) h (apply e r)
  unfolding apply
  apply-Keeps h (calls c) r a = call-Keeps make_address config requestor h c r
  apply-Keeps h (fires during) r a =
      if_rule (Keeps? (total h r + given h during) h) (has_caller r.timer r.queue during)
        (λ c. fire-Keeps make_address config requestor h r.timer r.queue r.log during a c) (λ _. tt)

  apply_all-Keeps :
      (h : ℕ) (es : List Event) (r : Resolver)
      → Attended r.queue r.timer
      → Keeps? (total h r + brought h es) h (apply_all es r)
  unfolding apply_all brought
  apply_all-Keeps h [] r a = record { counted = omega arith; attended = a }
  apply_all-Keeps h (e ∷ es) r a =
      option_rule (Keeps? (total h r + (brings h e + brought h es)) h) (apply e r) (λ _. tt)
        (λ r' q.
          let k = subst (Keeps? (total h r + brings h e) h) q (apply-Keeps h e r a) in
          subst (λ n. Keeps? n h (apply_all es r')) (omega (arith, k.counted))
            (apply_all-Keeps h es r' k.attended))

  -- So many waits end, one after the other, with handlers that call nothing.
  unfoldable pub fire_all : ℕ → Resolver → Option Resolver
  fire_all zero r = some r
  fire_all (suc n) r = elim (fire make_address config requestor r []) [
    | none ↦ none
    | some r' ↦ fire_all n r'
  ]

  -- What the end of a wait leaves of a queue that is not empty.
  abbrev served : Result → List Result → List Effect → Resolver
  served v rest l = record {
    queue = rest;
    timer = none;
    log = l ++ completed v.handler v.err v.ips ∷ [];
  }

  fire-served :
      (v : Result) (rest : List Result) (t : Option ℕ) (l : List Effect)
      → Attended (v ∷ rest) t
      → fire make_address config requestor (record { queue = v ∷ rest; timer = t; log = l }) []
        ≡ some (wait_for_front (served v rest l))
  unfolding on_lookup call_all rearm wait_for_front
  fire-served v [] t l a = rw a refl
  fire-served v (u ∷ rest) t l a = rw a refl

  fire_all-drained :
      (h : ℕ) (q : List Result) (t : Option ℕ) (l : List Effect)
      → Attended q t
      → let r : Resolver = record { queue = q; timer = t; log = l } in
        (r' : Resolver) × (fire_all (length q) r ≡ some r')
        × (r'.queue ≡ [])
        × (total h r' ≡ total h r)
  unfolding fire_all waiting done
  fire_all-drained h [] t l a = (_, refl, refl, refl)
  fire_all-drained h (v ∷ rest) t l a =
      let s = wait_for_front (served v rest l) in
      let (same, log, set) = wait_for_front-Attended rest none (served v rest l).log in
      let next = λ (o : Option Resolver). elim o as (λ x. Option Resolver) [
        | none ↦ none
        | some r' ↦ fire_all (length rest) r'
      ] in
      let (r', e, none_left, counted) =
        fire_all-drained h rest s.timer (served v rest l).log
          (subst (λ x. Attended x s.timer) same set) in
      let parts =
        ap₂
          (λ (x : List Result) (y : List Effect).
            fire_all (length rest) (record { queue = x; timer = s.timer; log = y }))
          same log in
      (
        r',
        ap next (fire-served v rest t l a) ∙ parts ∙ e,
        none_left,
        omega (arith, counted, done-append h l (completed v.handler v.err v.ips ∷ [])),
      )

-- `basic_resolver(ios)`
abbrev pub fresh : Resolver
fresh = record { queue = []; timer = none; log = [] }

-- Whatever look-ups are asked for and cancelled, from outside or by the handlers, and whenever waits end,
-- on a new resolver, unless a handler empties a queue in which look-ups wait: a
-- handler has been completed or waits as often as it was given. Once as many waits have ended as
-- look-ups wait then, with handlers that call nothing, the queue is empty and every handler has been completed
-- exactly as often as it was given.
pub apply_all-once :
    (make_address : Text → Option Address) (config : Config) (requestor : Address) (es : List Event)
    (r : Resolver) (h : ℕ)
    → apply_all make_address config requestor es fresh ≡ some r
    → (waiting h r.queue + done h r.log ≡ brought h es)
      × ((r' : Resolver) × (fire_all make_address config requestor (length r.queue) r ≡ some r')
          × (r'.queue ≡ [])
          × (done h r'.log ≡ brought h es))
unfolding waiting done
apply_all-once make_address config requestor es r h e =
    let k =
      subst (Keeps? (0 + brought h es) h) e
        (apply_all-Keeps make_address config requestor h es fresh tt) in
    let (r', q, none_left, t) =
      fire_all-drained make_address config requestor h r.queue r.timer r.log k.attended in
    (
      omega (arith, k.counted),
      (r', q, none_left, omega (arith, t, k.counted, ap (waiting h) none_left)),
    )
