-- ===== src/Tcp/Connect/Opened.antt =====
-- What open leaves of a socket without a channel.
use libsimulator.Base.{
  ℕ, ◌*◌, ◌≡◌, refl, ◌∙◌, Bool, true, false, List, [], none, some, arith, option_rule,
}
use libsimulator.Net.Packet.{Packet}
use libsimulator.Tcp.{Effect, State}
use libsimulator.Tcp.Write.{abort_send_handlers}
use libsimulator.Tcp.Input.{close, disconnected}
use libsimulator.Tcp.Cancel.{abort_recv_handlers, cancel, reset_state, forget_endpoint}
use libsimulator.Tcp.Connect.{Host, open_host, close_host}

-- What the clearing of a socket that has no channel leaves alone.
pub record Keeps (s s' : State) : Type 0 where
  channels : s'.channels ≡ s.channels
  this : s'.socket.this ≡ s.socket.this
  no_channel : s.socket.channel ≡ none → s'.socket.channel ≡ none

abort_recv_handlers-Keeps : (s : State) → Keeps s (abort_recv_handlers s)
unfolding abort_recv_handlers
abort_recv_handlers-Keeps s = record {
  channels = ground arith;
  this = ground arith;
  no_channel = λ n. ground arith;
}

abort_send_handlers-Keeps : (s : State) → Keeps s (abort_send_handlers s)
unfolding abort_send_handlers
abort_send_handlers-Keeps s = record {
  channels = ground arith;
  this = ground arith;
  no_channel = λ n. ground arith;
}

cancel-Keeps : (s : State) → Keeps s (cancel s)
unfolding cancel
cancel-Keeps s =
    let a = abort_recv_handlers-Keeps s in
    let b = abort_send_handlers-Keeps (abort_recv_handlers s) in
    option_rule (Keeps s) (abort_send_handlers (abort_recv_handlers s)).socket.connect_handler
      (λ _. record {
        channels = b.channels ∙ a.channels;
        this = b.this ∙ a.this;
        no_channel = λ n. b.no_channel (a.no_channel n);
      })
      (λ h _. record {
        channels = b.channels ∙ a.channels;
        this = b.this ∙ a.this;
        no_channel = λ n. refl;
      })

reset_state-Keeps : (s : State) → s.socket.channel ≡ none → Keeps s (reset_state s)
unfolding reset_state
reset_state-Keeps s n =
    let c = cancel-Keeps (record s {
      socket = record s.socket {
        is_open = false;
        mss = 1475;
        cwnd = 1475 * 2;
        bytes_in_flight = 0;
        outstanding_packet_sizes = [];
        recv_null_buffers = false;
        send_null_buffers = false;
        next_incoming_seq = 0;
        next_outgoing_seq = 0;
        last_drop_seq = 0;
      };
    }) in
    record { channels = c.channels; this = c.this; no_channel = c.no_channel }

module _ (drops : List Effect → Packet → Bool) where
  pub disconnected-none : (s : State) → s.socket.channel ≡ none → disconnected drops s ≡ s
  unfolding disconnected
  disconnected-none s n =
      option_rule (λ r. r ≡ s) s.socket.channel (λ _. refl) (λ c e. ground arith)

  close-Keeps : (s : State) → s.socket.channel ≡ none → Keeps s (close drops s).0
  unfolding close forget_endpoint
  close-Keeps s n = rw (disconnected-none s n) (
      let c = reset_state-Keeps (forget_endpoint s) n in
      record { channels = c.channels; this = c.this; no_channel = c.no_channel })

  -- A socket without a channel that is opened has a forwarder of its own, and no channel.
  pub record Opened (h : Host) (f : ℕ) (h' : Host) : Type 0 where
    pub is_open : h'.state.socket.is_open ≡ true
    pub channels : h'.state.channels ≡ h.state.channels
    pub this : h'.state.socket.this ≡ h.state.socket.this
    pub forwarder : h'.state.socket.forwarder ≡ some f
    pub aimed : h'.forwarders f ≡ some h.state.socket.this
    pub no_channel : h'.state.socket.channel ≡ none

  pub open_host-Opened :
      (h : Host) (f : ℕ) (v4 : Bool)
      → h.state.socket.channel ≡ none
      → Opened h f (open_host drops h f v4)
  unfolding open_host close_host
  open_host-Opened h f v4 n =
      let c = close-Keeps h.state n in
      record {
        is_open = refl;
        channels = c.channels;
        this = c.this;
        forwarder = refl;
        aimed = ground (arith, c.this);
        no_channel = c.no_channel n;
      }
