-- ===== src/Queue/Link/Invariant.antt =====
-- What holds of a link and its queue between two steps.
use libsimulator.Base.{ℕ, ◌+◌, ◌≤◌, ◌≡◌, ap, false, List, [], ◌∷◌, arith, ◌==◌, if◌then◌else◌}
use libsimulator.Net.Packet.{Packet, packet_size}
use libsimulator.Queue.{TimedPacket, Queue, enqueue, dequeue, timed, tail_drops}
use libsimulator.Queue.Accounting.{total, undroppable, total-append, undroppable-append, IsCounted}
use libsimulator.Queue.Link.{Pending, idle, begins, sends, Link}
use libsimulator.Queue.Link.Tracks.{Tracks, Spaced, last_time}

abbrev pub SameConfig : ℕ → ℕ → ℕ → Queue → Type 0
SameConfig bandwidth delay limit q =
    (q.bandwidth ≡ bandwidth) × (q.forwarding_latency ≡ delay) × (q.max_queue_size ≡ limit)

module _ (transmit : ℕ → ℕ → ℕ) where
  -- The time that the packet occupies the line of this queue; none if the rate is not limited.
  abbrev pub cost : ℕ → Packet → ℕ
  cost bandwidth p = if bandwidth == 0 then 0 else transmit bandwidth (packet_size p)

  -- Something is pending exactly if a packet is queued. The timer of begin_send_next_packet is set to
  -- the time of the front packet, and that of next_packet_sent to no time before it has been sent.
  abbrev pub Armed : Pending → ℕ → ℕ → List TimedPacket → Type 0
  Armed idle rate last [] = Unit
  Armed (begins t) rate last (x ∷ xs) = t ≡ x.ts
  Armed (sends t) rate last (x ∷ xs) = (x.ts ≤ t) × (last + cost rate x.pkt ≤ t)
  Armed _ rate last _ = ⊥

  pub record Inv (bandwidth delay limit : ℕ) (l : Link) : Type 0 where
    pub same : SameConfig bandwidth delay limit l.queue
    pub counted : IsCounted l.queue
    pub armed :
        Armed l.pending l.queue.bandwidth
          (last_time (cost l.queue.bandwidth) 0 l.departed)
          l.queue.queue
    pub tracks : Tracks l.queue.forwarding_latency l.accepted l.departed l.queue.queue
    pub spaced : Spaced (cost l.queue.bandwidth) 0 l.departed
    pub past : last_time (cost l.queue.bandwidth) 0 l.departed ≤ l.now

  pub enqueue-IsCounted :
      (q : Queue) (now : ℕ) (p : Packet)
      → tail_drops q p ≡ false
      → IsCounted q
      → IsCounted (enqueue q now p)
  enqueue-IsCounted q now p fits c = record {
    counted = omega (arith, total-append q.queue (timed q now p ∷ []), c.counted);
    bounded = λ h. ground (arith, undroppable-append q.queue (timed q now p ∷ []), c.bounded h);
  }

  pub dequeue-IsCounted :
      (q : Queue) (x : TimedPacket) (xs : List TimedPacket)
      → q.queue ≡ x ∷ xs
      → IsCounted q
      → IsCounted (dequeue q x xs)
  dequeue-IsCounted q x xs e c = record {
    counted = omega (arith, c.counted, ap total e);
    bounded = λ h. ground (arith, c.counted, ap total e, ap undroppable e, c.bounded h);
  }
