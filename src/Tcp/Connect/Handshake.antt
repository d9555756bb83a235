-- ===== src/Tcp/Connect/Handshake.antt =====
-- What connects the two ends of a TCP connection: async_connect at one end and the attachment of an accepted
-- socket at the other.
use libsimulator.Base.{
  ℕ, ◌≡◌, refl, sym, ap, ap₂, subst, ◌∙◌, Bool, true, false, List, [], ◌∷◌, ◌++◌, Option, none,
  some, arith, option_rule, update,
}
use libsimulator.Net.Address.{Endpoint, endpoint_eq, endpoint_eq_self}
use libsimulator.Net.Packet.{Packet, PacketType}
use libsimulator.Net.Hops.{Channel, last, replace_last, replace_last-last, remote_idx}
use libsimulator.Network.{Config, End}
use libsimulator.Tcp.{Effect, sent, remote_hops}
use libsimulator.Tcp.Connect.{Host, open_host, attach, async_connect}
use libsimulator.Tcp.Connect.Opened.{open_host-Opened}
use libsimulator.Tcp.Connect.Linked.{async_connect-Linked}

-- What the attachment leaves: the far end of the channel leads to the new forwarder.
record Attached (h : Host) (f : ℕ) (bind_ip : Endpoint) (c : ℕ) (h' : Host) : Type 0 where
  to_self : last (h'.state.channels c).hops1 ≡ some f
  hops0 : (h'.state.channels c).hops0 ≡ (h.state.channels c).hops0
  ep0 : (h'.state.channels c).ep0 ≡ (h.state.channels c).ep0
  ep1 : (h'.state.channels c).ep1 ≡ (h.state.channels c).ep1
  aimed : h'.forwarders f ≡ some h.state.socket.this
  this : h'.state.socket.this ≡ h.state.socket.this
  bound : h'.state.socket.bound_to ≡ bind_ip
  channel : h'.state.socket.channel ≡ some c

attach-Attached :
    (drops : List Effect → Packet → Bool) (h h' : Host) (f c : ℕ) (bind_ip : Endpoint)
    → h.state.socket.channel ≡ none
    → attach drops h f bind_ip c ≡ some h'
    → Attached h f bind_ip c h'
unfolding attach
attach-Attached drops h h' f c bind_ip n =
    let q = open_host-Opened drops h f h.state.socket.is_v4 n in
    let h1 = open_host drops h f h.state.socket.is_v4 in
    let ch = h1.state.channels c in
    option_rule (λ (o : Option Host). o ≡ some h' → Attached h f bind_ip c h')
      (replace_last ch.hops1 f) (λ _ e. ground arith)
      (λ hops r e.
        let channels = update h1.state.channels c (record ch { hops1 = hops }) in
        let w : record h1 {
          state = record h1.state {
            socket = record h1.state.socket {
              bound_to = bind_ip;
              user_bound_to = bind_ip;
              channel = some c;
            };
            channels = channels;
          };
        }
            ≡ h' =
          cc in
        let same : channels c ≡ record ch { hops1 = hops } = ground arith in
        let before : ch ≡ h.state.channels c = ap (λ (x : ℕ → Channel). x c) q.channels in
        subst (Attached h f bind_ip c) w (record {
          to_self = ap (λ (x : Channel). last x.hops1) same ∙ replace_last-last ch.hops1 hops f r;
          hops0 = ap (λ (x : Channel). x.hops0) same ∙ ap (λ (x : Channel). x.hops0) before;
          ep0 = ap (λ (x : Channel). x.ep0) same ∙ ap (λ (x : Channel). x.ep0) before;
          ep1 = ap (λ (x : Channel). x.ep1) same ∙ ap (λ (x : Channel). x.ep1) before;
          aimed = q.aimed;
          this = q.this;
          bound = refl;
          channel = refl;
        }))

-- An end with an endpoint of its own finds the way to the other one.
remote_hops-own : (c : Channel) → remote_hops c c.ep0 ≡ c.hops1
unfolding remote_idx
remote_hops-own c = ground (arith, endpoint_eq_self c.ep0)

remote_hops-far : (c : Channel) → endpoint_eq c.ep0 c.ep1 ≡ false → remote_hops c c.ep1 ≡ c.hops0
unfolding remote_idx
remote_hops-far c h = ground (arith, endpoint_eq_self c.ep1)

-- A SYN of the channel went from the client to a socket that listens, and now the channel leads from each of the two sockets to the forwarder
-- of the other.
pub record Joined (ends : ℕ → End) (client server : Host) (id f : ℕ) : Type 0 where
  pub remote : ℕ
  pub listening : (ends remote).listening ≡ true
  pub far_end : (client.state.channels id).ep1 ≡ (ends remote).base.bound_to
  -- the last thing that the client sent
  pub syn : Packet
  pub is_syn : syn.type ≡ PacketType.syn
  pub of_channel : syn.channel ≡ some id
  pub syn_from : syn.from ≡ client.state.socket.bound_to
  pub earlier : List Effect
  pub logged : client.state.log ≡ earlier ++ sent syn ∷ []
  pub asked : last syn.hops ≡ (ends remote).base.forwarder
  pub to_server :
      last (remote_hops (server.state.channels id) client.state.socket.bound_to) ≡ some f
  pub to_client :
      last (remote_hops (server.state.channels id) server.state.socket.bound_to)
      ≡ client.state.socket.forwarder
  pub channel : server.state.socket.channel ≡ some id
  pub aimed : server.forwarders f ≡ some server.state.socket.this

-- A socket without a channel calls async_connect, is given a new channel, and a socket without one is
-- attached to it at its far end, which is not the endpoint of the first. Then the last thing that the first one sent is a
-- SYN of the channel, from its own endpoint and with a route that ends at the forwarder of a listening socket
-- that is bound to the far end; now the packets of the first socket go to the new
-- forwarder of the accepted one, which delivers to it, and those of the accepted socket to the
-- forwarder of the first.
pub async_connect-attach :
    (config : Config) (ends : ℕ → End) (drops drops' : List Effect → Packet → Bool)
    (client client' server server' : Host) (target : Endpoint) (handler id f f' : ℕ)
    (garbage : ℕ × ℕ)
    → client.state.socket.channel ≡ none
    → async_connect drops config ends client f target handler id garbage ≡ some client'
    → client'.state.socket.channel ≡ some id
    → server.state.socket.channel ≡ none
    → server.state.channels ≡ client'.state.channels
    → attach drops' server f' (client'.state.channels id).ep1 id ≡ some server'
    → endpoint_eq client'.state.socket.bound_to (client'.state.channels id).ep1 ≡ false
    → Joined ends client' server' id f'
async_connect-attach config ends drops drops' client client' server server' target handler id f f'
      garbage n e c m same a d =
    let l =
      async_connect-Linked config ends target handler id drops client client' f garbage n e c in
    let j = attach-Attached drops' server server' f' id (client'.state.channels id).ep1 m a in
    let ch = server'.state.channels id in
    let old : server.state.channels id ≡ client'.state.channels id =
      ap (λ (x : ℕ → Channel). x id) same in
    let own : client'.state.socket.bound_to ≡ ch.ep0 =
      sym (j.ep0 ∙ ap (λ (x : Channel). x.ep0) old ∙ l.own_end) in
    let far : server'.state.socket.bound_to ≡ ch.ep1 =
      j.bound ∙ sym (j.ep1 ∙ ap (λ (x : Channel). x.ep1) old) in
    let apart : endpoint_eq ch.ep0 ch.ep1 ≡ false =
      ap₂ endpoint_eq (sym own) (sym far ∙ j.bound) ∙ d in
    record {
      remote = l.remote;
      listening = l.listening;
      far_end = l.far_end;
      syn = l.syn;
      is_syn = l.is_syn;
      of_channel = l.of_channel;
      syn_from = l.syn_from;
      earlier = l.earlier;
      logged = l.logged;
      asked = l.syn_to;
      to_server = ap (λ x. last (remote_hops ch x)) own ∙ ap last (remote_hops-own ch) ∙ j.to_self;
      to_client =
          ap (λ x. last (remote_hops ch x)) far
          ∙ ap last (remote_hops-far ch apart)
          ∙ ap last (j.hops0 ∙ ap (λ (x : Channel). x.hops0) old)
          ∙ l.to_self;
      channel = j.channel;
      aimed = j.aimed ∙ ap some (sym j.this);
    }
