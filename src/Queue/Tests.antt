-- ===== src/Queue/Tests.antt =====
-- A run of a queue, and instances of the theorems about it.
use libsimulator.Base.{◌⊎◌, ℕ, ◌+◌, ◌*◌, ◌/◌, ◌≤◌, ◌≡◌, refl, [], ◌∷◌, arith}
use libsimulator.Net.Packet.{new_packet, ok_to_drop}
use libsimulator.Queue.{begin_send, accept, incoming_packet}
use libsimulator.Queue.Accounting.{total, undroppable}
use libsimulator.Queue.Link.{begins, Link, arrived, arrives, Reaches, here, next, fresh}
use libsimulator.Queue.Link.Tracks.{Tracks, Spaced}
use libsimulator.Queue.Link.Reach.{Reaches-Tracks}
use libsimulator.Queue.Link.Invariant.{cost}
use libsimulator.Queue.Link.Drain.{Reaches-drained}

-- Whole nanoseconds at a rate in bytes per second.
abbrev line : ℕ → ℕ → ℕ
line bandwidth bytes = 1000000000 * bytes / bandwidth

-- 200 kB/s, 1 ms, and a limit of 50 bytes; two packets of 20 bytes of overhead.
abbrev start : Link
start = fresh 200000 1000000 50 7

loaded : Link
loaded = arrived line (arrived line start 10 new_packet) 20 new_packet

loaded_queue : (loaded.queue.queue_size ≡ 40) × (loaded.pending ≡ begins 1000010)
unfolding loaded arrived fresh incoming_packet accept begin_send ok_to_drop
loaded_queue = (refl, refl)

full : (arrived line loaded 30 new_packet).lost ≡ new_packet ∷ []
unfolding loaded arrived fresh incoming_packet accept begin_send ok_to_drop
full = refl

loaded_reached : Reaches line start loaded
unfolding loaded arrived fresh incoming_packet accept begin_send ok_to_drop
loaded_reached =
    next (next here (arrives 10 new_packet (omega arith))) (arrives 20 new_packet (omega arith))

Reaches-Tracks_example :
    Tracks 1000000 loaded.accepted loaded.departed loaded.queue.queue
    × Spaced (cost line 200000) 0 loaded.departed
    × (loaded.queue.queue_size ≡ total loaded.queue.queue)
    × (◌≡◌ {A = ℕ} 50 0 ⊎ (loaded.queue.queue_size ≤ 50 + undroppable loaded.queue.queue))
Reaches-Tracks_example = Reaches-Tracks line 200000 1000000 50 7 loaded loaded_reached

Reaches-drained_example :
    (m : Link) × Reaches line loaded m × (m.queue.queue ≡ []) × (m.accepted ≡ loaded.accepted)
Reaches-drained_example = Reaches-drained line 200000 1000000 50 7 loaded loaded_reached
