-- ===== src/Queue/Link.antt =====
-- A queue in the simulation: packets arrive at any time, and the handler that waits on its timer, or
-- was posted, runs when it is due. The ghost lists log what was accepted, forwarded and dropped,
-- with the time. While a packet is forwarded, no other packet enters this queue.
pub mod Invariant
pub mod Tracks
pub mod Reach
pub mod Drain
use libsimulator.Base.{ℕ, ◌+◌, ◌≤◌, ◌≡◌, Bool, true, false, List, [], ◌∷◌, ◌++◌, Option, none, some}
use libsimulator.Net.Packet.{Packet}
use libsimulator.Queue.{
  TimedPacket, Queue, Effect, begin_at, sent_at, sent_posted, forwarded, dropped, incoming_packet,
  begin_send_next_packet, next_packet_sent,
}

-- The handler that the queue waits for, with the time at which it is due.
pub data Pending : Type 0 where
  idle : Pending
  begins sends : ℕ → Pending

pub record Link : Type 0 where
  pub now : ℕ
  pub queue : Queue
  pub pending : Pending
  pub accepted : List (Packet × ℕ)
  pub departed : List (Packet × ℕ)
  pub lost : List Packet

abbrev pub observe_one : Link → Effect → Link
observe_one l (begin_at t) = record l { pending = begins t }
observe_one l (sent_at t) = record l { pending = sends t }
observe_one l sent_posted = record l { pending = sends l.now }
observe_one l (forwarded p) = record l { departed = l.departed ++ (p, l.now) ∷ [] }
observe_one l (dropped p) = record l { lost = l.lost ++ p ∷ [] }

abbrev pub observe : Link → List Effect → Link
observe l [] = l
observe l (e ∷ es) = observe (observe_one l e) es

-- A packet that is not dropped at once is accepted.
abbrev pub accepts : List Effect → List (Packet × ℕ) → Packet → ℕ → List (Packet × ℕ)
accepts (dropped _ ∷ _) log p now = log
accepts _ log p now = log ++ (p, now) ∷ []

module _ (transmit : ℕ → ℕ → ℕ) where
  unfoldable pub arrived : Link → ℕ → Packet → Link
  arrived l now p =
      let r = incoming_packet transmit l.queue now p in
      observe (record l { now = now; queue = r.0; accepted = accepts r.1 l.accepted p now }) r.1

  -- The state in which the handler that was due runs: nothing is pending.
  abbrev pub woken : Link → ℕ → Queue → List Effect → Link
  woken l now q es = observe (record l { now = now; queue = q; pending = idle }) es

  pub data Step (l : Link) : Link → Type 0 where
    arrives : (now : ℕ) (p : Packet) → l.now ≤ now → Step l (arrived l now p)
    begins_now :
        (now t : ℕ) (q : Queue) (e : Effect)
        → l.now ≤ now
        → l.pending ≡ begins t
        → t ≤ now
        → begin_send_next_packet transmit l.queue now ≡ some (q, e)
        → Step l (woken l now q (e ∷ []))
    sent_now :
        (now t : ℕ) (q : Queue) (es : List Effect)
        → l.now ≤ now
        → l.pending ≡ sends t
        → t ≤ now
        → next_packet_sent transmit l.queue now ≡ some (q, es)
        → Step l (woken l now q es)

  pub data Reaches (l : Link) : Link → Type 0 where
    here : Reaches l l
    next : {m n : Link} → Reaches l m → Step m n → Reaches l n

-- queue::queue, in a simulation at time `now`.
unfoldable pub fresh : ℕ → ℕ → ℕ → ℕ → Link
fresh bandwidth propagation_delay max_queue_size now = record {
  now = now;
  queue = record {
    max_queue_size = max_queue_size;
    forwarding_latency = propagation_delay;
    bandwidth = bandwidth;
    queue_size = 0;
    queue = [];
    last_forward = now;
  };
  pending = idle;
  accepted = [];
  departed = [];
  lost = [];
}
