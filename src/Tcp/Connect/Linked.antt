-- ===== src/Tcp/Connect/Linked.antt =====
-- The channel that async_connect leaves behind.
use libsimulator.Base.Errors.{ErrorCode, failed}
use libsimulator.Base.{
  ℕ, ◌≡◌, refl, ap, subst, ◌∙◌, Bool, true, not, List, [], ◌∷◌, ◌++◌, Option, none, some, arith,
  if◌then◌else◌, if_rule, update,
}
use libsimulator.Net.Address.{Endpoint, is_v4, address_eq, any_v4}
use libsimulator.Ports.{Sockets}
use libsimulator.Net.Packet.{Packet, PacketType}
use libsimulator.Net.Hops.{Channel, last}
use libsimulator.Network.{Config, End, Attempt, connected, internal_connect, syn_of}
use libsimulator.Network.Ends.{LeadsTo, Attempted, internal_connect-Attempted}
use libsimulator.Tcp.{Effect, sent}
use libsimulator.Tcp.Connect.{
  Host, end_of, started, connect_bound, open_host, async_connect, bind_first, take_endpoint, fails,
  same_family,
}
use libsimulator.Tcp.Connect.Opened.{open_host-Opened}

-- The channel that an attempt to connect leaves at its socket.
pub record Linked (ends : ℕ → End) (target : Endpoint) (id : ℕ) (h : Host) : Type 0 where
  pub remote : ℕ
  pub listening : (ends remote).listening ≡ true
  pub to_acceptor : last (h.state.channels id).hops1 ≡ (ends remote).base.forwarder
  pub to_self : last (h.state.channels id).hops0 ≡ h.state.socket.forwarder
  pub own_end : (h.state.channels id).ep0 ≡ h.state.socket.bound_to
  pub far_end : (h.state.channels id).ep1 ≡ (ends remote).base.bound_to
  -- the SYN was sent last
  pub syn : Packet
  pub is_syn : syn.type ≡ PacketType.syn
  pub of_channel : syn.channel ≡ some id
  pub syn_from : syn.from ≡ h.state.socket.bound_to
  pub earlier : List Effect
  pub logged : h.state.log ≡ earlier ++ sent syn ∷ []
  pub syn_to : last syn.hops ≡ (ends remote).base.forwarder

module _ (config : Config) (ends : ℕ → End) (target : Endpoint) (handler id : ℕ) where
  abbrev Leaves : Option Host → Type 0
  Leaves o =
      (h' : Host) → o ≡ some h' → h'.state.socket.channel ≡ some id → Linked ends target id h'

  none-Leaves : (h : Host) → h.state.socket.channel ≡ none → Leaves (some h)
  none-Leaves h n h' e c =
      let q : h ≡ h' = cc in
      let w = subst (λ (x : Host). x.state.socket.channel ≡ none) q n in ground (arith, w)

  started-Linked :
      (h : Host) (i : ℕ) (c : Channel)
      → (ends i).listening ≡ true
      → LeadsTo c.hops0 (end_of h)
      → LeadsTo c.hops1 (ends i)
      → c.ep0 ≡ h.state.socket.bound_to
      → c.ep1 ≡ (ends i).base.bound_to
      → Linked ends target id (started config h target handler id (connected c (syn_of id c)))
  unfolding started
  started-Linked h i c l a b e0 e1 =
      let same : update h.state.channels id c id ≡ c = ground arith in
      record {
        remote = i;
        listening = l;
        to_acceptor = ap (λ (x : Channel). last x.hops1) same ∙ b.0;
        to_self = ap (λ (x : Channel). last x.hops0) same ∙ a.0;
        own_end = ap (λ (x : Channel). x.ep0) same ∙ e0;
        far_end = ap (λ (x : Channel). x.ep1) same ∙ e1;
        syn = syn_of id c;
        is_syn = refl;
        of_channel = refl;
        syn_from = e0;
        earlier = h.state.log;
        logged = refl;
        syn_to = b.0;
      }

  by_attempt :
      (h : Host) (o : Option Attempt)
      → Attempted h.tables.listen_sockets ends id (end_of h) target o
      → Leaves (elim o as (λ x. Option Host) [
        | none ↦ none
        | some r ↦ some (started config h target handler id r)
      ])
  unfolding started
  by_attempt h _ (Attempted.unbound f) = none-Leaves _ refl
  by_attempt h _ (Attempted.deaf i f l) = none-Leaves _ refl
  by_attempt h _ (Attempted.shut i f l) = none-Leaves _ refl
  by_attempt h _ Attempted.undefined = λ h' e c. ground arith
  by_attempt h _ (Attempted.made i c f l a b e0 e1) = λ h' e q.
      let w : started config h target handler id (connected c (syn_of id c)) ≡ h' = cc in
      subst (Linked ends target id) w (started-Linked h i c l a b e0 e1)

  connect_bound-Linked :
      (h : Host) (garbage : ℕ × ℕ)
      → h.state.socket.is_open ≡ true
      → h.state.socket.channel ≡ none
      → Leaves (connect_bound config ends h target handler id garbage)
  unfolding connect_bound
  connect_bound-Linked h garbage o n =
      if_rule Leaves (not (same_family h.state.socket.bound_to.address target.address))
        (λ _. none-Leaves _ n)
        (λ _.
          by_attempt h
            (internal_connect config h.tables.listen_sockets ends id garbage (end_of h) target)
            (internal_connect-Attempted config h.tables.listen_sockets ends id garbage (end_of h)
              target o))

  take_endpoint-open :
      (h : Host) (r : Sockets × Endpoint × ErrorCode)
      → ((take_endpoint h r).0.state.socket.is_open ≡ h.state.socket.is_open)
        × ((take_endpoint h r).0.state.socket.channel ≡ h.state.socket.channel)
  unfolding take_endpoint
  take_endpoint-open h (tables, addr, ec) =
      if_rule
        (λ (x : Host × ErrorCode).
          (x.0.state.socket.is_open ≡ h.state.socket.is_open)
          × (x.0.state.socket.channel ≡ h.state.socket.channel))
        (failed ec) (λ _. (refl, refl)) (λ _. (refl, refl))

  bind_first-open :
      (h : Host)
      → ((bind_first h target).0.state.socket.is_open ≡ h.state.socket.is_open)
        × ((bind_first h target).0.state.socket.channel ≡ h.state.socket.channel)
  unfolding bind_first
  bind_first-open h =
      if_rule
        (λ (x : Host × ErrorCode).
          (x.0.state.socket.is_open ≡ h.state.socket.is_open)
          × (x.0.state.socket.channel ≡ h.state.socket.channel))
        (address_eq h.state.socket.bound_to.address any_v4) (λ _. take_endpoint-open h _)
        (λ _. (refl, refl))

  pub async_connect-Linked :
      (drops : List Effect → Packet → Bool) (h h' : Host) (f : ℕ) (garbage : ℕ × ℕ)
      → h.state.socket.channel ≡ none
      → async_connect drops config ends h f target handler id garbage ≡ some h'
      → h'.state.socket.channel ≡ some id
      → Linked ends target id h'
  unfolding async_connect
  async_connect-Linked drops h h' f garbage n =
      from (if h.state.socket.is_open then h else open_host drops h f (is_v4 target.address))
        (if_rule (λ (x : Host). (x.state.socket.is_open ≡ true) × (x.state.socket.channel ≡ none))
          h.state.socket.is_open (λ o. (o, n))
          (λ _.
            let q = open_host-Opened drops h f (is_v4 target.address) n in
            (q.is_open, q.no_channel)))
        h'
    where
      from :
          (h1 : Host)
          → (h1.state.socket.is_open ≡ true) × (h1.state.socket.channel ≡ none)
          → Leaves (
              if failed (bind_first h1 target).1
              then some (fails (bind_first h1 target).0 handler (bind_first h1 target).1)
              else connect_bound config ends (bind_first h1 target).0 target handler id garbage)
      from h1 (o, c) =
          let (o', c') = bind_first-open h1 in
          if_rule Leaves (failed (bind_first h1 target).1) (λ _. none-Leaves _ (c' ∙ c))
            (λ _. connect_bound-Linked (bind_first h1 target).0 garbage (o' ∙ o) (c' ∙ c))
