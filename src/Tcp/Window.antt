-- ===== src/Tcp/Window.antt =====
-- The congestion window and the bytes in flight, kept by every operation of a socket.
pub mod Calls
pub mod Arrivals
pub mod Steps
mod Tests
use libsimulator.Base.{
  ℕ, zero, suc, ◌≡◌, ◌≤◌, ◌<◌, refl, sym, ap, subst, ◌∙◌, ◌+◌, ◌-◌, ◌*◌, ◌/◌, Bool, true, false,
  List, [], ◌∷◌, ◌++◌, Option, none, some, arith, ◌==◌, ltb, leb, not, ◌&&◌, ◌||◌, if◌then◌else◌,
  length, min, take, drop, sum, elim_rule, option_rule, if_rule, is_some,
}
use libsimulator.Base.Errors.{
  ErrorCode, no_error, would_block, bad_descriptor, not_connected, failed, is_would_block,
}
use libsimulator.Net.Packet.{Packet, PacketType}
use libsimulator.Net.Hops.{Route}
use libsimulator.Tcp.{
  Effect, State, Socket, put, look_up, delete, halved, recently_cut, dropped_on, packet_dropped,
  accounted, numbered, returned, emit, sent, send_on, remote_hops,
}
use libsimulator.Tcp.Write.{
  Written, window_full, next_seq, new_segment, send_segment, send_chunks, send_buffers,
  write_some_on, write_some_impl, finished, async_write_some_impl, async_wait_write_impl,
  maybe_wakeup_writer, resend, grown, acked, ack_on, clear_send,
}

-- The sum of the sizes that the map holds.
unfoldable pub outstanding : List (ℕ × ℕ) → ℕ
outstanding [] = 0
outstanding ((i, n) ∷ m) = n + outstanding m

outstanding-put : (i n : ℕ) (m : List (ℕ × ℕ)) → outstanding (put i n m) ≤ outstanding m + n
unfolding outstanding put
outstanding-put i n [] = omega arith
outstanding-put i n ((j, k) ∷ m) =
    if_rule (λ (r : List (ℕ × ℕ)). outstanding r ≤ k + outstanding m + n) (j == i)
      (λ _. omega arith) (λ _. omega (arith, outstanding-put i n m))

pub outstanding-delete :
    (i n : ℕ) (m : List (ℕ × ℕ))
    → look_up i m ≡ some n
    → n + outstanding (delete i m) ≡ outstanding m
unfolding outstanding look_up delete
outstanding-delete i n [] e = ground arith
outstanding-delete i n ((j, k) ∷ m) e = ground (arith, outstanding-delete i n m)

-- An mss above 0 fits into the congestion window, and all the outstanding bytes count as in flight.
pub record InWindow (k : Socket) : Type 0 where
  pub mss_pos : 0 < k.mss
  pub mss_fits : k.mss ≤ k.cwnd
  pub counted : outstanding k.outstanding_packet_sizes ≤ k.bytes_in_flight

-- The same of a result that may be undefined.
abbrev pub InWindow? : Option State → Type 0
InWindow? none = Unit
InWindow? (some s) = InWindow s.socket

some-InWindow : (o : Option State) (s : State) → o ≡ some s → InWindow? o → InWindow s.socket
some-InWindow o s e w = subst InWindow? e w

-- The fields that the invariant is about are those of another socket.
pub same_window :
    (k k' : Socket)
    → k'.mss ≡ k.mss
    → k'.cwnd ≡ k.cwnd
    → k'.bytes_in_flight ≡ k.bytes_in_flight
    → k'.outstanding_packet_sizes ≡ k.outstanding_packet_sizes
    → InWindow k
    → InWindow k'
same_window k k' a b c d w = record {
  mss_pos = omega (arith, a, w.mss_pos);
  mss_fits = omega (arith, a, b, w.mss_fits);
  counted = rw (c, d) w.counted;
}

pub dropped_on-InWindow :
    (c : ℕ) (s : State) (p : Packet) → InWindow s.socket → InWindow (dropped_on c s p).socket
unfolding dropped_on
dropped_on-InWindow c s p w =
    if_rule (λ (r : State). InWindow r.socket) (recently_cut s.socket p)
      (λ _. record { mss_pos = w.mss_pos; mss_fits = w.mss_fits; counted = w.counted })
      (λ _. record { mss_pos = w.mss_pos; mss_fits = ground arith; counted = w.counted })

accounted-InWindow :
    (c : ℕ) (s : State) (p : Packet) → InWindow s.socket → InWindow (accounted c s p).socket
accounted-InWindow c s p w = record {
  mss_pos = w.mss_pos;
  mss_fits = w.mss_fits;
  counted = omega (
    arith,
    w.counted,
    outstanding-put p.seq_nr (length p.buffer) s.socket.outstanding_packet_sizes,
  );
}

returned-InWindow :
    (c : ℕ) (s : State) (p : Packet) → InWindow s.socket → InWindow (returned c s p).socket
unfolding returned
returned-InWindow c s p w =
    option_rule (λ (r : State). InWindow r.socket) p.drop_fun (λ _. w)
      (λ f _. dropped_on-InWindow c s (record p { drop_fun = none }) w)

module _ (drops : List Effect → Packet → Bool) where
  pub send_on-InWindow :
      (c : ℕ) (s : State) (p : Packet) → InWindow s.socket → InWindow (send_on drops c s p).socket
  unfolding send_on
  send_on-InWindow c s p w =
      let s' = emit (accounted c s p) (sent (numbered c s p)) in
      let w' = accounted-InWindow c s p w in
      if_rule (λ (r : State). InWindow r.socket) (drops s.log (numbered c s p))
        (λ _. returned-InWindow c s' (numbered c s p) w') (λ _. w')

  pub next_seq-InWindow : (s : State) → InWindow s.socket → InWindow (next_seq s).socket
  next_seq-InWindow s w = record { mss_pos = w.mss_pos; mss_fits = w.mss_fits; counted = w.counted }

  chunks-InWindow :
      (fuel c : ℕ) (s : State) (hops : Route) (bytes : List ℕ) (ret : ℕ)
      → InWindow s.socket
      → InWindow (send_chunks drops fuel c s hops bytes ret).state.socket
  unfolding send_chunks
  chunks-InWindow zero c s hops bytes ret w = w
  chunks-InWindow (suc fuel) c s hops [] ret w = w
  chunks-InWindow (suc fuel) c s hops (b ∷ bs) ret w =
      let n = min (length (b ∷ bs)) s.socket.mss in
      let s' = send_segment drops c s hops (take n (b ∷ bs)) in
      let w' =
        send_on-InWindow c (next_seq s) (new_segment s hops (take n (b ∷ bs)))
          (next_seq-InWindow s w) in
      elim_rule (λ (r : Written). InWindow r.state.socket) (window_full s') (λ _. w')
        (λ _. chunks-InWindow fuel c s' hops (drop n (b ∷ bs)) (ret + n) w')

  buffers-InWindow :
      (c : ℕ) (s : State) (hops : Route) (bufs : List (List ℕ)) (ret : ℕ)
      → InWindow s.socket
      → InWindow (send_buffers drops c s hops bufs ret).state.socket
  unfolding send_buffers
  buffers-InWindow c s hops [] ret w = w
  buffers-InWindow c s hops (b ∷ bs) ret w =
      let r = send_chunks drops (length b) c s hops b ret in
      let w' = chunks-InWindow (length b) c s hops b ret w in
      elim_rule (λ (r : Written). InWindow r.state.socket) (is_some r.stop) (λ _. w')
        (λ _. buffers-InWindow c r.state hops bs r.ret w')

  abbrev Result-InWindow : State × ErrorCode × ℕ → Type 0
  Result-InWindow r = InWindow r.0.socket

  write_some_on-InWindow :
      (c : ℕ) (s : State) (bufs : List (List ℕ))
      → InWindow s.socket
      → InWindow (write_some_on drops c s bufs).0.socket
  unfolding write_some_on
  write_some_on-InWindow c s bufs w =
      if_rule Result-InWindow (is_some s.socket.connect_handler) (λ _. w)
        (λ _. by_hops (remote_hops (s.channels c) s.socket.bound_to))
    where
      by_hops :
          (hops : Route)
          → Result-InWindow (elim hops [
            | [] ↦ (s, not_connected, 0)
            | h ∷ hs ↦
                if window_full s
                then (s, would_block, 0)
                else finished (send_buffers drops c s (h ∷ hs) bufs 0)
          ])
      by_hops [] = w
      by_hops (h ∷ hs) =
          if_rule Result-InWindow (window_full s) (λ _. w)
            (λ _.
              option_rule Result-InWindow (send_buffers drops c s (h ∷ hs) bufs 0).stop
                (λ _. buffers-InWindow c s (h ∷ hs) bufs 0 w)
                (λ ec _. buffers-InWindow c s (h ∷ hs) bufs 0 w))

  pub write_some_impl-InWindow :
      (s : State) (bufs : List (List ℕ))
      → InWindow s.socket
      → InWindow (write_some_impl drops s bufs).0.socket
  unfolding write_some_impl
  write_some_impl-InWindow s bufs w =
      if_rule Result-InWindow (not s.socket.is_open) (λ _. w)
        (λ _.
          option_rule Result-InWindow s.socket.channel (λ _. w)
            (λ c _. write_some_on-InWindow c s bufs w))
