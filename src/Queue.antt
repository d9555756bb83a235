-- ===== src/Queue.antt =====
-- queue.cpp: the queue of packets with a rate, a latency and a limit. A call returns the new queue
-- and what it did to the outside in order: the timer that it set, the packets that it
-- handed on or returned to their sender. `int64(1e9 / double(bandwidth) * packet_size)` is computed
-- in floating point: it is the parameter `transmit`, on the bandwidth and the size.
pub mod Accounting
pub mod Link
mod Tests
use libsimulator.Base.{
  ℕ, ◌+◌, ◌-◌, Bool, ◌&&◌, List, [], ◌∷◌, ◌++◌, Option, none, some, ltb, ◌==◌, if◌then◌else◌,
  length,
}
use libsimulator.Net.Packet.{Packet, ok_to_drop, packet_size}

pub record TimedPacket : Type 0 where
  pub ts : ℕ
  pub pkt : Packet

pub record Queue : Type 0 where
  pub max_queue_size : ℕ
  pub forwarding_latency : ℕ
  pub bandwidth : ℕ
  pub queue_size : ℕ
  pub queue : List TimedPacket
  pub last_forward : ℕ

pub data Effect : Type 0 where
  -- the timer is set to a time and begin_send_next_packet waits for it
  begin_at : ℕ → Effect
  -- the timer is set to a time and next_packet_sent waits for it
  sent_at : ℕ → Effect
  -- next_packet_sent is posted
  sent_posted : Effect
  -- forward_packet, and the call of the packet's drop function, if it has one
  forwarded dropped : Packet → Effect

-- The test of the tail drop.
abbrev pub tail_drops : Queue → Packet → Bool
tail_drops q p =
    ok_to_drop p && (ltb 0 q.max_queue_size && ltb q.max_queue_size (q.queue_size + packet_size p))

abbrev pub timed : Queue → ℕ → Packet → TimedPacket
timed q now p = record { ts = now + q.forwarding_latency; pkt = p }

abbrev pub enqueue : Queue → ℕ → Packet → Queue
enqueue q now p = record q {
  queue = q.queue ++ timed q now p ∷ [];
  queue_size = q.queue_size + packet_size p;
}

abbrev pub dequeue : Queue → TimedPacket → List TimedPacket → Queue
dequeue q front rest = record q { queue = rest; queue_size = q.queue_size - packet_size front.pkt }

module _ (transmit : ℕ → ℕ → ℕ) where
  -- begin_send_next_packet with its front packet.
  pub begin_send : Queue → ℕ → TimedPacket → Queue × Effect
  begin_send q now front =
      if ltb now front.ts
      then (q, begin_at front.ts)
      else if q.bandwidth == 0
      then (record q { last_forward = now }, sent_posted)
      else let t = now + transmit q.bandwidth (packet_size front.pkt) in
        (record q { last_forward = t }, sent_at t)

  -- `m_queue.front()` of an empty queue is undefined, and here it is none.
  pub begin_send_on : Queue → ℕ → List TimedPacket → Option (Queue × Effect)
  begin_send_on q now [] = none
  begin_send_on q now (front ∷ rest) = some (begin_send q now front)

  pub begin_send_next_packet : Queue → ℕ → Option (Queue × Effect)
  begin_send_next_packet q now = begin_send_on q now q.queue

  -- `if (m_queue.size() > 1) return; begin_send_next_packet();` by what the queue held before.
  pub accept : Queue → ℕ → Packet → List TimedPacket → Queue × List Effect
  accept q now p [] =
      let started = begin_send (enqueue q now p) now (timed q now p) in (started.0, started.1 ∷ [])
  accept q now p (front ∷ rest) = (enqueue q now p, [])

  pub incoming_packet : Queue → ℕ → Packet → Queue × List Effect
  incoming_packet q now p = if tail_drops q p then (q, dropped p ∷ []) else accept q now p q.queue

  -- `if (m_queue.size()) begin_send_next_packet();`
  pub go_on : Queue → ℕ → List TimedPacket → Queue × List Effect
  go_on q now [] = (q, [])
  go_on q now (front ∷ rest) = let started = begin_send q now front in (started.0, started.1 ∷ [])

  pub sent_on : Queue → ℕ → List TimedPacket → Option (Queue × List Effect)
  sent_on q now [] = none
  sent_on q now (front ∷ rest) =
      let r = go_on (dequeue q front rest) now rest in some (r.0, forwarded front.pkt ∷ r.1)

  pub next_packet_sent : Queue → ℕ → Option (Queue × List Effect)
  next_packet_sent q now = sent_on q now q.queue
