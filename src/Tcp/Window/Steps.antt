-- ===== src/Tcp/Window/Steps.antt =====
-- What any sequence of calls and arrivals at one socket keeps.
use libsimulator.Base.Errors.{ErrorCode, failed}
use libsimulator.Base.{
  ℕ, ◌≡◌, ◌≤◌, ◌<◌, refl, subst, Bool, not, List, [], ◌∷◌, Option, none, some, arith, if◌then◌else◌,
  option_rule, if_rule,
}
use libsimulator.Net.Packet.{Packet}
use libsimulator.Net.Address.{Endpoint, is_v4, address_eq, endpoint_eq, any_v4, no_endpoint}
use libsimulator.Net.Hops.{replace_last}
use libsimulator.Ports.{Sockets, rebind_socket}
use libsimulator.Network.{Config, End, Attempt, refused, connected, internal_connect}
use libsimulator.Tcp.{Effect, State, look_up, packet_dropped}
use libsimulator.Tcp.Input.{close}
use libsimulator.Tcp.Connect.{
  Host, take_endpoint, bind, bind_first, started, connect_bound, close_host, open_host, attach,
  async_connect, moved, end_of, same_family,
}
use libsimulator.Tcp.Window.{
  InWindow, InWindow?, outstanding-delete, same_window, write_some_impl-InWindow,
}
use libsimulator.Tcp.Window.Calls.{
  Good, packet_dropped-InWindow, async_write_some_impl-InWindow, async_wait_write_impl-InWindow,
}
use libsimulator.Tcp.Window.Arrivals.{
  abort_recv_handlers-InWindow, abort_send_handlers-InWindow, read_some_impl-InWindow,
  async_read_some_impl-InWindow, async_wait_read_impl-InWindow, incoming_packet-InWindow,
  cancel-InWindow, reset_state-InWindow,
}
use libsimulator.Tcp.Write.{abort_send_handlers}
use libsimulator.Tcp.Cancel.{abort_recv_handlers}
use libsimulator.Tcp.Api.{
  async_read_some, async_wait_read, async_write_some, async_wait_write, writes, async_writes,
  waits_write, reads, async_reads, waits_read, incoming, dropped, cancels, closes, opens, binds,
  connects, attaches, moves, Call, on_state, apply, apply_all,
}

module _ (drops : List Effect → Packet → Bool) (config : Config) (ends : ℕ → End) where
  abbrev Fine : Host → Type 0
  Fine h = Good h.state

  abbrev pub Fine? : Option Host → Type 0
  Fine? none = Unit
  Fine? (some h) = Good h.state

  on_state-Fine : (h : Host) (o : Option State) → InWindow? o → Fine? (on_state h o)
  on_state-Fine h none w = tt
  on_state-Fine h (some s) w = w

  close_host-Fine : (h : Host) → Fine (close_host drops h)
  unfolding close_host close
  close_host-Fine h = reset_state-InWindow _

  open_host-Fine : (h : Host) (f : ℕ) (v4 : Bool) → Fine (open_host drops h f v4)
  unfolding open_host
  open_host-Fine h f v4 =
      same_window (close_host drops h).state.socket _ refl refl refl refl (close_host-Fine h)

  take_endpoint-Fine :
      (h : Host) (r : Sockets × Endpoint × ErrorCode) → Fine h → Fine (take_endpoint h r).0
  unfolding take_endpoint
  take_endpoint-Fine h (tables, addr, ec) w =
      if_rule (λ (x : Host × ErrorCode). Fine x.0) (failed ec) (λ _. w)
        (λ _. same_window h.state.socket _ refl refl refl refl w)

  bind-Fine : (h : Host) (ep : Endpoint) → Fine h → Fine (bind h ep).0
  unfolding bind
  bind-Fine h ep w =
      let k = h.state.socket in
      if_rule (λ (x : Host × ErrorCode). Fine x.0) (not k.is_open) (λ _. w)
        (λ _.
          if_rule (λ (x : Host × ErrorCode). Fine x.0)
            (if is_v4 ep.address then not k.is_v4 else k.is_v4) (λ _. w)
            (λ _. take_endpoint-Fine h _ w))

  bind_first-Fine : (h : Host) (target : Endpoint) → Fine h → Fine (bind_first h target).0
  unfolding bind_first
  bind_first-Fine h target w =
      if_rule (λ (x : Host × ErrorCode). Fine x.0)
        (address_eq h.state.socket.bound_to.address any_v4) (λ _. take_endpoint-Fine h _ w) (λ _. w)

  started-Fine :
      (h : Host) (target : Endpoint) (n id : ℕ) (r : Attempt)
      → Fine h
      → Fine (started config h target n id r)
  unfolding started
  started-Fine h target n id (refused ec) w = record {
    mss_pos = config.mtu_pos _ _;
    mss_fits = omega arith;
    counted = w.counted;
  }
  started-Fine h target n id (connected c syn) w = record {
    mss_pos = config.mtu_pos _ _;
    mss_fits = omega arith;
    counted = w.counted;
  }

  connect_bound-Fine :
      (h : Host) (target : Endpoint) (n id : ℕ) (garbage : ℕ × ℕ)
      → Fine h
      → Fine? (connect_bound config ends h target n id garbage)
  unfolding connect_bound
  connect_bound-Fine h target n id garbage w =
      if_rule Fine? (not (same_family h.state.socket.bound_to.address target.address)) (λ _. w)
        (λ _.
          option_rule Fine?
            (internal_connect config h.tables.listen_sockets ends id garbage (end_of h) target)
            (λ _. tt) (λ r _. started-Fine h target n id r w))

  async_connect-Fine :
      (h : Host) (f : ℕ) (target : Endpoint) (n id : ℕ) (garbage : ℕ × ℕ)
      → Fine h
      → Fine? (async_connect drops config ends h f target n id garbage)
  unfolding async_connect
  async_connect-Fine h f target n id garbage w =
      let h1 = if h.state.socket.is_open then h else open_host drops h f (is_v4 target.address) in
      let w1 =
        if_rule Fine h.state.socket.is_open (λ _. w)
          (λ _. open_host-Fine h f (is_v4 target.address)) in
      let w2 = bind_first-Fine h1 target w1 in
      if_rule Fine? (failed (bind_first h1 target).1) (λ _. w2)
        (λ _. connect_bound-Fine (bind_first h1 target).0 target n id garbage w2)

  attach-Fine : (h : Host) (f : ℕ) (ep : Endpoint) (c : ℕ) → Fine? (attach drops h f ep c)
  unfolding attach
  attach-Fine h f ep c =
      let h1 = open_host drops h f h.state.socket.is_v4 in
      option_rule Fine? (replace_last (h1.state.channels c).hops1 f) (λ _. tt)
        (λ hops _. same_window h1.state.socket _ refl refl refl refl (open_host-Fine h f _))

  moved-Fine :
      (h : Host) (this : ℕ)
      → Fine h
      → Fine? (elim (moved h this) as (λ x. Option Host) [ none ↦ none | some r ↦ some r.0 ])
  unfolding moved
  moved-Fine h this w =
      let k = h.state.socket in
      if_rule
        (λ (o : Option (Host × libsimulator.Tcp.Socket)).
          Fine? (elim o as (λ x. Option Host) [ none ↦ none | some r ↦ some r.0 ]))
        (endpoint_eq k.bound_to no_endpoint) (λ _. same_window k _ refl refl refl refl w)
        (λ _.
          option_rule
            (λ (o : Option (Host × libsimulator.Tcp.Socket)).
              Fine? (elim o as (λ x. Option Host) [ none ↦ none | some r ↦ some r.0 ]))
            (rebind_socket h.tables k.this this k.bound_to) (λ _. tt)
            (λ t _. same_window k _ refl refl refl refl w))

  apply-Fine : (c : Call) (h : Host) → Fine h → Fine? (apply drops config ends c h)
  unfolding apply async_read_some async_wait_read async_write_some async_wait_write
  apply-Fine (writes bufs) h w = write_some_impl-InWindow drops h.state bufs w
  apply-Fine (async_writes bufs n) h w =
      async_write_some_impl-InWindow drops (abort_send_handlers h.state) bufs n
        (abort_send_handlers-InWindow h.state w)
  apply-Fine (waits_write n) h w =
      async_wait_write_impl-InWindow drops (abort_send_handlers h.state) n
        (abort_send_handlers-InWindow h.state w)
  apply-Fine (reads bufs) h w = read_some_impl-InWindow h.state bufs w
  apply-Fine (async_reads bufs n) h w =
      async_read_some_impl-InWindow (abort_recv_handlers h.state) bufs n
        (abort_recv_handlers-InWindow h.state w)
  apply-Fine (waits_read n) h w =
      async_wait_read_impl-InWindow (abort_recv_handlers h.state) n
        (abort_recv_handlers-InWindow h.state w)
  apply-Fine (incoming p) h w = on_state-Fine h _ (incoming_packet-InWindow drops h.state p w)
  apply-Fine (dropped p) h w = on_state-Fine h _ (packet_dropped-InWindow h.state p w)
  apply-Fine cancels h w = cancel-InWindow h.state w
  apply-Fine closes h w = close_host-Fine h
  apply-Fine (opens f v4) h w = open_host-Fine h f v4
  apply-Fine (binds ep) h w = bind-Fine h ep w
  apply-Fine (connects f target n id garbage) h w = async_connect-Fine h f target n id garbage w
  apply-Fine (attaches f ep c) h w = attach-Fine h f ep c
  apply-Fine (moves this) h w = moved-Fine h this w

  all-Fine : (cs : List Call) (h : Host) → Fine h → Fine? (apply_all drops config ends cs h)
  unfolding apply_all
  all-Fine [] h w = w
  all-Fine (c ∷ cs) h w =
      option_rule Fine? (apply drops config ends c h) (λ _. tt)
        (λ h' e. all-Fine cs h' (subst Fine? e (apply-Fine c h w)))

  -- Whatever calls are made and whatever packets arrive or are dropped, in any order, unless an ACK makes the
  -- arithmetic of the congestion window overflow an int: an mss above 0 that
  -- fits into the congestion window still does so, and the bytes in flight still count all the
  -- bytes that are not acknowledged yet.
  pub apply_all-InWindow :
      (cs : List Call) (h h' : Host)
      → apply_all drops config ends cs h ≡ some h'
      → InWindow h.state.socket
      → InWindow h'.state.socket
  apply_all-InWindow cs h h' e w = subst Fine? e (all-Fine cs h w)

  -- After any such sequence, the size that is kept for its packet is at most the
  -- number of bytes in flight, which it is subtracted from, and the congestion window, which is divided by, is
  -- not 0.
  pub apply_all-acked :
      (cs : List Call) (h h' : Host) (seq_nr n : ℕ)
      → apply_all drops config ends cs h ≡ some h'
      → InWindow h.state.socket
      → look_up seq_nr h'.state.socket.outstanding_packet_sizes ≡ some n
      → (n ≤ h'.state.socket.bytes_in_flight) × (0 < h'.state.socket.cwnd)
  apply_all-acked cs h h' seq_nr n e w l =
      let w' = apply_all-InWindow cs h h' e w in
      let m = h'.state.socket.outstanding_packet_sizes in
      (
        omega (arith, w'.counted, outstanding-delete seq_nr n m l),
        omega (arith, w'.mss_pos, w'.mss_fits),
      )
