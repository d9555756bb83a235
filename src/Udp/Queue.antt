-- ===== src/Udp/Queue.antt =====
-- The incoming queue of a UDP socket and its size, and the pace of its sending.
use libsimulator.Base.{
  ℕ, zero, suc, ◌≡◌, ◌≤◌, ◌<◌, refl, sym, ap, ◌∙◌, ◌+◌, ◌-◌, min, max, true, false, List, [], ◌∷◌,
  ◌++◌, append-nil, Option, some, arith, ltb, length, take, drop, take-append-drop, length-append,
  if_rule, sum,
}
use libsimulator.Net.Packet.{Packet, packet_size}
use libsimulator.Net.Address.{endpoint_eq, no_endpoint}
use libsimulator.Net.Hops.{Route}
use libsimulator.Udp.{
  Socket, State, gets, copy_out, receive_open, receive_from_impl, max_queue_size, incoming_packet,
  send_to_impl, deliver,
}

-- The bytes of the packets in the queue.
abbrev pub total : List Packet → ℕ
total [] = 0
total (p ∷ ps) = length p.buffer + total ps

record Copied (bufs bytes : List ℕ) (r : List ℕ × List ℕ) : Type 0 where
  front : r.0 ≡ take (sum bufs) bytes
  rest : r.1 ≡ drop (sum bufs) bytes

take_nil : (k : ℕ) → take {A = ℕ} k [] ≡ []
take_nil zero = refl
take_nil (suc k) = refl

drop_nil : (k : ℕ) → drop {A = ℕ} k [] ≡ []
drop_nil zero = refl
drop_nil (suc k) = refl

take-drop-take :
    (n k : ℕ) (xs : List ℕ)
    → take (min (length xs) n) xs ++ take k (drop (min (length xs) n) xs) ≡ take (n + k) xs
take-drop-take n k [] = ground (arith, take_nil k, take_nil (n + k))
take-drop-take zero k (x ∷ xs) =
    let e : min (length (x ∷ xs)) 0 ≡ 0 = omega arith in
    let z : k ≡ 0 + k = omega arith in
    ap (λ m. take m (x ∷ xs) ++ take k (drop m (x ∷ xs))) e ∙ ap (λ n. take n (x ∷ xs)) z
take-drop-take (suc n) k (x ∷ xs) =
    let e : min (suc (length xs)) (suc n) ≡ suc (min (length xs) n) = omega arith in
    let z : suc (n + k) ≡ suc n + k = omega arith in
    ap (λ m. take m (x ∷ xs) ++ take k (drop m (x ∷ xs))) e
    ∙ ap (x ∷◌) (take-drop-take n k xs)
    ∙ ap (λ m. take m (x ∷ xs)) z

drop-drop-min : (n k : ℕ) (xs : List ℕ) → drop k (drop (min (length xs) n) xs) ≡ drop (n + k) xs
drop-drop-min n k [] = ground (arith, drop_nil k, drop_nil (n + k))
drop-drop-min zero k (x ∷ xs) =
    let e : min (length (x ∷ xs)) 0 ≡ 0 = omega arith in
    let z : k ≡ 0 + k = omega arith in
    ap (λ m. drop k (drop m (x ∷ xs))) e ∙ ap (λ n. drop n (x ∷ xs)) z
drop-drop-min (suc n) k (x ∷ xs) =
    let e : min (suc (length xs)) (suc n) ≡ suc (min (length xs) n) = omega arith in
    let z : suc (n + k) ≡ suc n + k = omega arith in
    ap (λ m. drop k (drop m (x ∷ xs))) e ∙ drop-drop-min n k xs ∙ ap (λ m. drop m (x ∷ xs)) z

copy_out-Copied : (bufs bytes : List ℕ) → Copied bufs bytes (copy_out bufs bytes)
unfolding copy_out
copy_out-Copied [] bytes = record { front = ground arith; rest = ground arith }
copy_out-Copied (n ∷ ns) bytes =
    let m = min (length bytes) n in
    by_left (take m bytes) (drop m bytes) (copy_out-Copied ns (drop m bytes))
      (take-drop-take n (sum ns) bytes) (drop-drop-min n (sum ns) bytes)
  where
    by_left :
        (first left : List ℕ) {rest : List ℕ × List ℕ}
        → Copied ns left rest
        → first ++ take (sum ns) left ≡ take (n + sum ns) bytes
        → drop (sum ns) left ≡ drop (n + sum ns) bytes
        → Copied (n ∷ ns) bytes (elim left as (λ x. List ℕ × List ℕ) [
          | [] ↦ (first, [])
          | b ∷ bs ↦ (first ++ rest.0, rest.1)
        ])
    by_left first [] {rest} c f d = record {
      front = sym (append-nil first) ∙ ap (first ++◌) (sym (take_nil (sum ns))) ∙ f;
      rest = sym (drop_nil (sum ns)) ∙ d;
    }
    by_left first (b ∷ bs) {rest} c f d = record {
      front = ap (first ++◌) c.front ∙ f;
      rest = c.rest ∙ d;
    }

-- A receive into one or more buffers on a bound socket takes the first packet off the queue and gives as much of
-- it as the buffers hold together, with its sender. What does not fit is cut off, but stays counted: if the size exceeded the bytes
-- in the queue by `lost` before, it exceeds them by `lost` and the bytes cut off after.
pub receive_from_impl_cut :
    (k : Socket) (n : ℕ) (ns : List ℕ) (p : Packet) (ps : List Packet) (lost : ℕ)
    → k.is_open ≡ true
    → endpoint_eq k.bound_to no_endpoint ≡ false
    → k.incoming_queue ≡ p ∷ ps
    → k.queue_size ≡ total (p ∷ ps) + lost
    → (after : Socket) × (got : List ℕ) × (cut : List ℕ) × (receive_from_impl k (n ∷ ns)
        ≡ some (after, gets p.from got))
      × (got ≡ take (sum (n ∷ ns)) p.buffer)
      × (cut ≡ drop (sum (n ∷ ns)) p.buffer)
      × (after.incoming_queue ≡ ps)
      × (after.queue_size ≡ total ps + (lost + length cut))
unfolding receive_from_impl receive_open
receive_from_impl_cut k n ns p ps lost o b q size =
    let c = copy_out-Copied (n ∷ ns) p.buffer in
    let r = copy_out (n ∷ ns) p.buffer in
    let after = record k { incoming_queue = ps; queue_size = k.queue_size - length r.0 } in
    let whole : r.0 ++ r.1 ≡ p.buffer =
      ap (λ x. x ++ r.1) c.front
      ∙ ap (take (sum (n ∷ ns)) p.buffer ++◌) c.rest
      ∙ take-append-drop (sum (n ∷ ns)) p.buffer in
    let received : receive_from_impl k (n ∷ ns) ≡ some (after, gets p.from r.0) = ground arith in
    (
      after,
      r.0,
      r.1,
      received,
      c.front,
      c.rest,
      refl,
      omega (arith, size, ap length whole, length-append r.0 r.1),
    )

-- Once the bytes that are counted and not in the queue leave no room for a packet, the socket drops
-- it without a trace, also when the queue is empty and a reader waits.
pub incoming_packet_deaf :
    (s : State) (p : Packet) (lost : ℕ)
    → s.0.queue_size ≡ total s.0.incoming_queue + lost
    → max_queue_size < lost + packet_size p
    → incoming_packet s p ≡ some s
unfolding incoming_packet
incoming_packet_deaf s p lost e h =
    if_rule (λ (r : Option State). r ≡ some s) (ltb max_queue_size (s.0.queue_size + packet_size p))
      (λ _. refl) (λ f. ground arith)

-- The time at which the socket can send next runs ahead of the clock by no more than the send queue's time and
-- the time of one packet, once it does.
pub send_to_impl_paced :
    (wire_time : ℕ → ℕ) (s : State) (now mtu : ℕ) (hops out : Route) (bytes : List ℕ)
    → let limit = now + s.0.send_queue_time + wire_time (length bytes + 28) in
      (send_to_impl wire_time s now mtu hops out bytes).0.0.next_send ≤ max s.0.next_send limit
unfolding send_to_impl deliver
send_to_impl_paced wire_time s now mtu [] out bytes = ground arith
send_to_impl_paced wire_time s now mtu (h ∷ hops) out bytes = ground arith
