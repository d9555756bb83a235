-- ===== src/Tcp/Wakeup.antt =====
-- Who is woken when packets and ACKs arrive.
use libsimulator.Base.{
  ℕ, suc, ◌≡◌, ◌<◌, refl, List, [], ◌∷◌, some, not, arith, ◌==◌, ◌&&◌, ◌||◌, length, length-append,
  if_rule, option_rule, is_some,
}
use libsimulator.Net.Packet.{Packet}
use libsimulator.Tcp.{State, Socket, look_up, emit, sent}
use libsimulator.Tcp.Input.{data_on, maybe_wakeup_reader}
use libsimulator.Tcp.Order.{ack_of, sequenced, take_early}

early_taken :
    (m : List (ℕ × Packet)) (seq : ℕ) (q : Packet)
    → look_up seq m ≡ some q
    → 0 < length (take_early (length m) m seq).1
unfolding take_early look_up
early_taken [] seq q e = ground arith
early_taken (x ∷ m) seq q e =
    option_rule (λ (r : List (ℕ × Packet) × List Packet × ℕ). 0 < length r.1) (look_up seq (x ∷ m))
      (λ n. ground arith) (λ p h. omega arith)

sequenced_gap :
    (k : Socket) (p q : Packet)
    → p.seq_nr ≡ k.next_incoming_seq
    → look_up (suc k.next_incoming_seq) k.reorder_buffer ≡ some q
    → 1 < length (sequenced k p).incoming_queue
unfolding sequenced
sequenced_gap k p q at early =
    let r = take_early (length k.reorder_buffer) k.reorder_buffer (suc k.next_incoming_seq) in
    if_rule (λ (k' : Socket). 1 < length k'.incoming_queue) (p.seq_nr == k.next_incoming_seq)
      (λ _. omega (
        arith,
        length-append k.incoming_queue (p ∷ r.1),
        early_taken k.reorder_buffer (suc k.next_incoming_seq) q early,
      ))
      (λ h. ground arith)

sleeps : (s : State) → 1 < length s.socket.incoming_queue → maybe_wakeup_reader s ≡ some s
unfolding maybe_wakeup_reader
sleeps s h =
    if_rule (λ r. r ≡ some s)
      (not (length s.socket.incoming_queue == 1)
        || not (is_some s.socket.recv_handler) && not (is_some s.socket.wait_recv_handler))
      (λ _. refl) (λ e. ground arith)

-- A packet that fills the gap before a packet that arrived early makes two packets or more readable
-- at once, and sending the ACK is then all that the socket does: a reader that waits for the empty queue
-- is not woken and goes on waiting.
pub data_on_gap :
    (c : ℕ) (s : State) (p q : Packet)
    → p.seq_nr ≡ s.socket.next_incoming_seq
    → look_up (suc s.socket.next_incoming_seq) s.socket.reorder_buffer ≡ some q
    → (data_on c s p
        ≡ some (record (emit s (sent (ack_of s c p))) { socket = sequenced s.socket p }))
      × (1 < length (sequenced s.socket p).incoming_queue)
      × ((sequenced s.socket p).recv_handler ≡ s.socket.recv_handler)
unfolding data_on sequenced
data_on_gap c s p q at early =
    let s2 = record (emit s (sent (ack_of s c p))) { socket = sequenced s.socket p } in
    (
      if_rule (λ r. r ≡ some s2) (p.seq_nr == s.socket.next_incoming_seq)
          (λ _. sleeps s2 (sequenced_gap s.socket p q at early)) (λ _. refl),
      sequenced_gap s.socket p q at early,
      if_rule (λ (k : Socket). k.recv_handler ≡ s.socket.recv_handler)
          (p.seq_nr == s.socket.next_incoming_seq) (λ _. refl) (λ _. refl),
    )
