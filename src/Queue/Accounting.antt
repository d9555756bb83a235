-- ===== src/Queue/Accounting.antt =====
-- The bytes in the queue, and what a queue owes to the packets that it may not drop.
use libsimulator.Base.{ℕ, ◌+◌, ◌≤◌, ◌<◌, ◌≡◌, List, [], ◌∷◌, ◌++◌, arith, if◌then◌else◌}
use libsimulator.Net.Packet.{ok_to_drop, packet_size}
use libsimulator.Queue.{TimedPacket, Queue}

abbrev pub total : List TimedPacket → ℕ
total [] = 0
total (x ∷ xs) = packet_size x.pkt + total xs

-- The bytes of the packets that are never dropped: acknowledgements, SYN+ACKs and errors.
abbrev pub undroppable : List TimedPacket → ℕ
undroppable [] = 0
undroppable (x ∷ xs) = (if ok_to_drop x.pkt then 0 else packet_size x.pkt) + undroppable xs

pub total-append : (xs ys : List TimedPacket) → total (xs ++ ys) ≡ total xs + total ys
total-append [] ys = omega arith
total-append (x ∷ xs) ys = omega (arith, total-append xs ys)

pub undroppable-append :
    (xs ys : List TimedPacket) → undroppable (xs ++ ys) ≡ undroppable xs + undroppable ys
undroppable-append [] ys = omega arith
undroppable-append (x ∷ xs) ys = omega (arith, undroppable-append xs ys)

-- The bytes counted are those of the packets held, and exceed a limit only by undroppable ones.
pub record IsCounted (q : Queue) : Type 0 where
  pub counted : q.queue_size ≡ total q.queue
  pub bounded : 0 < q.max_queue_size → q.queue_size ≤ q.max_queue_size + undroppable q.queue
