-- ===== src/Tcp/Window/Calls.antt =====
-- The window through the calls of the user, the arrivals of packets and the end of a connection.
use libsimulator.Base.{
  subst, ◌*◌, ◌/◌, ℕ, ◌≡◌, refl, ◌+◌, Bool, List, [], ◌∷◌, none, some, arith, leb, not, ◌&&◌,
  length, option_rule, if_rule, is_some,
}
use libsimulator.Base.Errors.{failed, is_would_block}
use libsimulator.Net.Packet.{Packet}
use libsimulator.Tcp.{Effect, State, look_up, packet_dropped, send_on}
use libsimulator.Tcp.Write.{
  window_full, write_some_impl, async_write_some_impl, async_wait_write_impl, maybe_wakeup_writer,
  resend, grown, acked, ack_on,
}
use libsimulator.Tcp.Window.{
  InWindow, InWindow?, outstanding-delete, same_window, dropped_on-InWindow, send_on-InWindow,
  write_some_impl-InWindow,
}

-- The socket of a state keeps the invariant.
abbrev pub Good : State → Type 0
Good s = InWindow s.socket

pub packet_dropped-InWindow : (s : State) (p : Packet) → Good s → InWindow? (packet_dropped s p)
unfolding packet_dropped
packet_dropped-InWindow s p w =
    option_rule InWindow? s.socket.channel (λ _. tt) (λ c _. dropped_on-InWindow c s p w)

module _ (drops : List Effect → Packet → Bool) where
  pub async_write_some_impl-InWindow :
      (s : State) (bufs : List (List ℕ)) (handler : ℕ)
      → Good s
      → Good (async_write_some_impl drops s bufs handler)
  unfolding async_write_some_impl
  async_write_some_impl-InWindow s bufs handler w =
      let r = write_some_impl drops s bufs in
      let w' = write_some_impl-InWindow drops s bufs w in
      if_rule Good (is_would_block r.1) (λ _. same_window r.0.socket _ refl refl refl refl w')
        (λ _.
          if_rule Good (failed r.1) (λ _. same_window r.0.socket _ refl refl refl refl w')
            (λ _. same_window r.0.socket _ refl refl refl refl w'))

  pub async_wait_write_impl-InWindow :
      (s : State) (handler : ℕ) → Good s → Good (async_wait_write_impl drops s handler)
  unfolding async_wait_write_impl
  async_wait_write_impl-InWindow s handler w =
      if_rule Good (not s.socket.is_open) (λ _. w)
        (λ _.
          if_rule Good (not (is_some s.socket.channel)) (λ _. w)
            (λ _.
              if_rule Good (not (is_some s.socket.connect_handler) && not (window_full s)) (λ _. w)
                (λ _. same_window s.socket _ refl refl refl refl w)))

  pub maybe_wakeup_writer-InWindow : (s : State) → Good s → InWindow? (maybe_wakeup_writer drops s)
  unfolding maybe_wakeup_writer
  maybe_wakeup_writer-InWindow s w =
      if_rule InWindow?
        (not (is_some s.socket.send_handler) && not (is_some s.socket.wait_send_handler)) (λ _. w)
        (λ _.
          if_rule InWindow? s.socket.send_null_buffers
            (λ _.
              option_rule InWindow? s.socket.wait_send_handler (λ _. tt)
                (λ h _.
                  async_wait_write_impl-InWindow
                    (record s { socket = record s.socket { wait_send_handler = none } }) h
                    (same_window s.socket _ refl refl refl refl w)))
            (λ _.
              option_rule InWindow? s.socket.send_handler (λ _. tt)
                (λ h _.
                  async_write_some_impl-InWindow
                    (record s { socket = record s.socket { send_handler = none } })
                    s.socket.send_buffer h (same_window s.socket _ refl refl refl refl w))))

  resend-InWindow : (c : ℕ) (s : State) (ps : List Packet) → Good s → Good (resend drops c s ps)
  unfolding resend
  resend-InWindow c s [] w = same_window s.socket _ refl refl refl refl w
  resend-InWindow c s (p ∷ ps) w =
      let s1 = record s { socket = record s.socket { outgoing_packets = ps } } in
      if_rule Good (leb (s.socket.bytes_in_flight + length p.buffer) s.socket.cwnd)
        (λ _.
          resend-InWindow c (send_on drops c s1 p) ps
            (send_on-InWindow drops c s1 p (same_window s.socket _ refl refl refl refl w)))
        (λ _. same_window s.socket _ refl refl refl refl w)

  acked-InWindow :
      (s : State) (seq_nr n : ℕ)
      → look_up seq_nr s.socket.outstanding_packet_sizes ≡ some n
      → Good s
      → Good (acked drops s seq_nr n)
  acked-InWindow s seq_nr n e w = record {
    mss_pos = w.mss_pos;
    mss_fits = w.mss_fits;
    counted =
        omega (arith, w.counted, outstanding-delete seq_nr n s.socket.outstanding_packet_sizes e);
  }

  grown-InWindow : (s : State) (n : ℕ) → Good s → InWindow? (grown drops s n)
  unfolding grown
  grown-InWindow s n w =
      let cwnd = s.socket.cwnd + s.socket.mss * n / s.socket.cwnd in
      if_rule InWindow? (leb (s.socket.mss * n) 2147483647 && leb cwnd 2147483647)
        (λ _. record {
          mss_pos = w.mss_pos;
          mss_fits = omega (arith, w.mss_fits);
          counted = w.counted;
        })
        (λ _. tt)

  pub ack_on-InWindow :
      (c : ℕ) (s : State) (seq_nr n : ℕ)
      → look_up seq_nr s.socket.outstanding_packet_sizes ≡ some n
      → Good s
      → InWindow? (ack_on drops c s seq_nr n)
  unfolding ack_on
  ack_on-InWindow c s seq_nr n e w =
      let s1 = acked drops s seq_nr n in
      let s2 = resend drops c s1 s1.socket.outgoing_packets in
      let w2 = resend-InWindow c s1 s1.socket.outgoing_packets (acked-InWindow s seq_nr n e w) in
      option_rule InWindow? (grown drops s2 n) (λ _. tt)
        (λ s3 e.
          let w3 = subst InWindow? e (grown-InWindow s2 n w2) in
          if_rule InWindow? (not (window_full s) && not (window_full s3))
            (λ _. maybe_wakeup_writer-InWindow s3 w3) (λ _. w3))
