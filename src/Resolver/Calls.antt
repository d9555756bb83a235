-- ===== src/Resolver/Calls.antt =====
-- What the calls on resolver.cpp keep, also those that a handler makes.
use libsimulator.Base.Errors.{no_error}
use libsimulator.Base.{
  ℕ, Bool, true, false, ◌≡◌, refl, sym, subst, ◌+◌, List, [], ◌∷◌, ◌++◌, Option, none, some, arith,
  leb, ◌==◌, if◌then◌else◌, option_rule, if_rule,
}
use libsimulator.Net.Address.{Address}
use libsimulator.Http.{Text}
use libsimulator.Proxy.Url.{atoi}
use libsimulator.Network.{Config}
use libsimulator.Resolver.{
  Resolver, Result, Effect, completed, resolve_on, async_resolve, on_lookup, fire, Call, call,
  call_all, rearm, wait_for_front,
}
use libsimulator.Resolver.Counts.{
  waiting, done, done-append, waiting-behind, gives, given, total, Attended, Keeps, waits_for_front,
  cancel-Keeps,
}

abbrev pub Keeps? : ℕ → ℕ → Option Resolver → Type 0
Keeps? n h none = Unit
Keeps? n h (some r) = Keeps n h r

-- Calls are made by a handler only where the end of the wait calls one.
abbrev pub has_caller : Option ℕ → List Result → List Call → Bool
has_caller t q [] = true
has_caller none q (c ∷ cs) = false
has_caller (some t) [] (c ∷ cs) = false
has_caller (some t) (v ∷ q) (c ∷ cs) = true

module _ (make_address : Text → Option Address) (config : Config) (requestor : Address) where
  resolve_on-Keeps :
      (h : ℕ) (r : Resolver) (now : ℕ) (hostname : Text) (port handler : ℕ)
      → Keeps
          (total h r + (if handler == h then 1 else 0))
          h
          (resolve_on make_address config requestor r now hostname port handler)
  unfolding resolve_on waiting
  resolve_on-Keeps h r now hostname port handler =
      option_rule (Keeps (total h r + (if handler == h then 1 else 0)) h) (make_address hostname)
        (λ _. waits_for_front h _ _ r.timer r.log (omega (arith, waiting-behind h r.queue _)))
        (λ a _. waits_for_front h _ _ r.timer r.log (omega arith))

  async_resolve-Keeps :
      (h : ℕ) (r : Resolver) (now : ℕ) (hostname service : Text) (handler : ℕ)
      → Keeps?
          (total h r + (if handler == h then 1 else 0))
          h
          (async_resolve make_address config requestor r now hostname service handler)
  unfolding async_resolve
  async_resolve-Keeps h r now hostname service handler =
      let n = total h r + (if handler == h then 1 else 0) in
      option_rule (Keeps? n h) (atoi service) (λ _. tt)
        (λ port _.
          if_rule (Keeps? n h) (leb port 65535)
            (λ _. resolve_on-Keeps h r now hostname port handler) (λ _. tt))

  pub call-Keeps :
      (h : ℕ) (c : Call) (r : Resolver)
      → Keeps? (total h r + gives h c) h (call make_address config requestor c r)
  unfolding call
  call-Keeps h (Call.resolve now hostname service handler) r =
      async_resolve-Keeps h r now hostname service handler
  call-Keeps h Call.cancels r =
      let k = cancel-Keeps h r in
      record { counted = omega (arith, k.counted); attended = k.attended }

  -- Of several calls only the first one needs the timer to be set.
  record Calls (h : ℕ) (cs : List Call) (r r' : Resolver) : Type 0 where
    counted : total h r' ≡ total h r + given h cs
    attended : Attended r.queue r.timer → Attended r'.queue r'.timer

  abbrev Calls? : ℕ → List Call → Resolver → Option Resolver → Type 0
  Calls? h cs r none = Unit
  Calls? h cs r (some r') = Calls h cs r r'

  then-Calls :
      (h : ℕ) (c : Call) (cs : List Call) (r r1 : Resolver)
      → Keeps (total h r + gives h c) h r1
      → (o : Option Resolver) → Calls? h cs r1 o
      → Calls? h (c ∷ cs) r o
  unfolding given
  then-Calls h c cs r r1 k none m = tt
  then-Calls h c cs r r1 k (some r2) m = record {
    counted = omega (arith, k.counted, m.counted);
    attended = λ _. m.attended k.attended;
  }

  call_all-Calls :
      (h : ℕ) (cs : List Call) (r : Resolver)
      → Calls? h cs r (call_all make_address config requestor cs r)
  unfolding call_all given
  call_all-Calls h [] r = record { counted = omega arith; attended = λ a. a }
  call_all-Calls h (c ∷ cs) r =
      option_rule (Calls? h (c ∷ cs) r) (call make_address config requestor c r) (λ _. tt)
        (λ r1 q.
          let k = subst (Keeps? (total h r + gives h c) h) q (call-Keeps h c r) in
          then-Calls h c cs r r1 k _ (call_all-Calls h cs r1))

  rearm-Keeps :
      (h n : ℕ) (left : List Result) (r : Resolver)
      → total h r ≡ n
      → ((left ≡ []) → Attended r.queue r.timer)
      → Keeps? n h (rearm left r)
  unfolding rearm
  rearm-Keeps h n [] r e a = record { counted = e; attended = a refl }
  rearm-Keeps h n (v ∷ left) r e a = by_queue r.queue refl
    where
      by_queue :
          (q : List Result)
          → r.queue ≡ q
          → Keeps? n h
              (elim q as (λ x. Option Resolver) [ [] ↦ none | u ∷ us ↦ some (wait_for_front r) ])
      by_queue [] q = tt
      by_queue (u ∷ us) q = waits_for_front h n r.queue r.timer r.log e

  on_lookup-Keeps :
      (h : ℕ) (v : Result) (rest : List Result) (l : List Effect) (during : List Call)
      → let r : Resolver = record { queue = v ∷ rest; timer = none; log = l } in
        Keeps?
          (total h r + given h during)
          h
          (on_lookup make_address config requestor r no_error during)
  unfolding on_lookup waiting done
  on_lookup-Keeps h v rest l during =
      let l1 = l ++ completed v.handler v.err v.ips ∷ [] in
      let s : Resolver = record { queue = rest; timer = none; log = l1 } in
      let n = total h (record { queue = v ∷ rest; timer = none; log = l }) + given h during in
      option_rule (Keeps? n h) (call_all make_address config requestor during s) (λ _. tt)
        (λ r' e.
          let k = subst (Calls? h during s) e (call_all-Calls h during s) in
          rearm-Keeps h n rest r'
            (omega (arith, k.counted, done-append h l (completed v.handler v.err v.ips ∷ [])))
            (λ z. k.attended (subst (λ x. Attended x none) (sym z) tt)))

  pub fire-Keeps :
      (h : ℕ) (t : Option ℕ) (q : List Result) (l : List Effect) (during : List Call)
      → Attended q t
      → has_caller t q during ≡ true
      → let r : Resolver = record { queue = q; timer = t; log = l } in
        Keeps? (total h r + given h during) h (fire make_address config requestor r during)
  unfolding given on_lookup
  fire-Keeps h none q l [] a c = record { counted = omega arith; attended = a }
  fire-Keeps h none q l (x ∷ cs) a c = absurd (ground (arith, c))
  fire-Keeps h (some t) [] l [] a c = record { counted = omega arith; attended = tt }
  fire-Keeps h (some t) [] l (x ∷ cs) a c = absurd (ground (arith, c))
  fire-Keeps h (some t) (v ∷ rest) l during a c = on_lookup-Keeps h v rest l during
