-- ===== src/Network/Ends.antt =====
-- Where the routes of a new connection lead, and when there is none.
use libsimulator.Base.Errors.{bad_descriptor, connection_refused, failed}
use libsimulator.Base.{
  ℕ, ◌≡◌, refl, sym, subst, ◌∙◌, true, false, not, [], ◌∷◌, Option, none, some, arith,
  if◌then◌else◌, option_rule, if_rule, Bool-cases, inl, inr,
}
use libsimulator.Net.Address.{Endpoint}
use libsimulator.Net.Hops.{Route, Channel, append, last, last-append, last-append_whole}
use libsimulator.Ports.{Table, find}
use libsimulator.SocketBase.{
  local_bound_to, local_bound_to_open, local_bound_to_shut, get_incoming_route,
}
use libsimulator.Network.{
  Config, End, Attempt, refused, connected, route_of, route_between, incoming_of, outgoing_of,
  establish, internal_connect, new_channel, syn_of,
}

-- The last hop of the route is the forwarder of the end.
abbrev pub LeadsTo : Route → End → Type 0
LeadsTo r e = (last r ≡ e.base.forwarder) × ((f : ℕ) × (e.base.forwarder ≡ some f))

incoming_of-LeadsTo : (e : End) (r : Route) → incoming_of e ≡ some r → LeadsTo r e
unfolding incoming_of get_incoming_route
incoming_of-LeadsTo e r =
    option_rule (λ (o : Option Route). o ≡ some r → LeadsTo r e) e.base.forwarder
      (λ _ n. ground arith)
      (λ f h.
        option_rule (λ (o : Option Route). o ≡ some r → LeadsTo r e)
          (route_of e.base.bound_to.address e.node.incoming) (λ _ n. ground arith)
          (λ s _ n.
            let q : append s (f ∷ []) ≡ r = cc in
            (subst (λ t. last t ≡ e.base.forwarder) q (last-append s f ∙ sym h), (f, h))))

route_between-LeadsTo :
    (network : Route) (a b : End) (r : Route) → route_between network a b ≡ some r → LeadsTo r b
unfolding route_between
route_between-LeadsTo network a b r =
    option_rule (λ (o : Option Route). o ≡ some r → LeadsTo r b) (outgoing_of a)
      (λ _ n. ground arith)
      (λ out _.
        option_rule (λ (o : Option Route). o ≡ some r → LeadsTo r b) (incoming_of b)
          (λ _ n. ground arith)
          (λ into h n.
            let (l, (f, k)) = incoming_of-LeadsTo b into h in
            let q : append (append out network) into ≡ r = cc in
            (
              subst (λ t. last t ≡ b.base.forwarder) q
                  (last-append_whole (append out network) into f (l ∙ k) ∙ sym k),
              (f, k),
            )))

-- What an attempt to connect comes to, for an open socket.
pub data Attempted (listen_sockets : Table) (ends : ℕ → End) (id : ℕ) (s : End) (target : Endpoint)
    : Option Attempt → Type 0 where
  unbound :
      find target listen_sockets ≡ none
      → Attempted listen_sockets ends id s target (some (refused connection_refused))
  deaf :
      (i : ℕ)
      → find target listen_sockets ≡ some i
      → (ends i).listening ≡ false
      → Attempted listen_sockets ends id s target (some (refused connection_refused))
  shut :
      (i : ℕ)
      → find target listen_sockets ≡ some i
      → (ends i).base.is_open ≡ false
      → Attempted listen_sockets ends id s target (some (refused bad_descriptor))
  undefined : Attempted listen_sockets ends id s target none
  made :
      (i : ℕ) (c : Channel)
      → find target listen_sockets ≡ some i
      → (ends i).listening ≡ true
      → LeadsTo c.hops0 s
      → LeadsTo c.hops1 (ends i)
      → c.ep0 ≡ s.base.bound_to
      → c.ep1 ≡ (ends i).base.bound_to
      → Attempted listen_sockets ends id s target (some (connected c (syn_of id c)))

module _ (config : Config) (listen_sockets : Table) (ends : ℕ → End) (id : ℕ) (garbage : ℕ × ℕ)
    (s : End) (target : Endpoint) where
  abbrev pub A : Option Attempt → Type 0
  A = Attempted listen_sockets ends id s target

  made_Attempted :
      (i : ℕ) (hops0 hops1 : Route)
      → s.base.is_open ≡ true
      → find target listen_sockets ≡ some i
      → (ends i).listening ≡ true
      → LeadsTo hops0 s
      → LeadsTo hops1 (ends i)
      → A (
          let ec =
            if failed (local_bound_to (ends i).base).1
            then (local_bound_to (ends i).base).1
            else (local_bound_to s.base).1 in
          let c = new_channel garbage s (ends i) hops0 hops1 in
          some (if failed ec then refused ec else connected c (syn_of id c)))
  unfolding new_channel
  made_Attempted i hops0 hops1 o f l a b = elim (Bool-cases (ends i).base.is_open) [
    | inl p ↦
        rw (local_bound_to_open s.base o, local_bound_to_open (ends i).base p)
          (made i _ f l a b refl refl)
    | inr p ↦ rw (local_bound_to_shut (ends i).base p) (shut i f p)
  ]

  pub establish-Attempted :
      (i : ℕ)
      → s.base.is_open ≡ true
      → find target listen_sockets ≡ some i
      → (ends i).listening ≡ true
      → A (establish config id garbage s (ends i) target)
  unfolding establish
  establish-Attempted i o f l =
      let network = config.channel_route (local_bound_to s.base).0.address target.address in
      option_rule A (route_between network (ends i) s) (λ _. undefined)
        (λ hops0 h0.
          option_rule A (route_between network s (ends i)) (λ _. undefined)
            (λ hops1 h1.
              made_Attempted i hops0 hops1 o f l (route_between-LeadsTo network (ends i) s hops0 h0)
                (route_between-LeadsTo network s (ends i) hops1 h1)))

  -- x
  pub internal_connect-Attempted :
      s.base.is_open ≡ true
      → Attempted listen_sockets ends id s target
          (internal_connect config listen_sockets ends id garbage s target)
  unfolding internal_connect
  internal_connect-Attempted o =
      option_rule A (find target listen_sockets) (λ h. unbound h)
        (λ i h.
          if_rule A (not (ends i).listening) (λ l. deaf i h (ground arith))
            (λ l. establish-Attempted i o h (ground arith)))
