-- ===== src/Tcp/Stream.antt =====
-- What a read takes from the stream of bytes that arrived.
use libsimulator.Base.Errors.{ErrorCode, no_error, would_block, bad_descriptor, not_connected}
use libsimulator.Base.{
  ℕ, ◌≡◌, ◌≤◌, ◌⊎◌, ◌+◌, true, false, List, [], ◌∷◌, ◌++◌, none, some, if◌then◌else◌, Option,
  length, is_some, sum,
}
use libsimulator.Net.Packet.{Packet}
use libsimulator.Tcp.{State}
use libsimulator.Tcp.Input.{is_error, Drained}

-- The bytes that can be read before an error.
unfoldable pub stream : List Packet → List ℕ
stream [] = []
stream (p ∷ ps) = if is_error p then [] else p.buffer ++ stream ps

-- The error of the first packet that carries one.
unfoldable pub first_error : List Packet → Option ErrorCode
first_error [] = none
first_error (p ∷ ps) = if is_error p then some p.ec else first_error ps

-- What the loop over the queue leaves is what follows the bytes that it got.
pub record Reads (queue : List Packet) (bufs got : List ℕ) (r : Drained) : Type 0 where
  pub whole : r.error ≡ none → r.got ++ stream r.queue ≡ got ++ stream queue
  pub room : length r.got ≤ length got + sum bufs
  pub full : r.error ≡ none → (stream r.queue ≡ []) ⊎ (length r.got ≡ length got + sum bufs)
  pub failing :
      (ec : ErrorCode)
      → r.error ≡ some ec
      → (stream queue ≡ []) × (got ≡ []) × (first_error queue ≡ some ec)

-- What a read comes to.
pub data Read (s : State) (bufs : List ℕ) : State × ErrorCode × List ℕ → Type 0 where
  -- nothing was read and nothing changed
  no_room : sum bufs ≡ 0 → Read s bufs (s, no_error, [])
  closed : s.socket.is_open ≡ false → Read s bufs (s, bad_descriptor, [])
  unconnected : is_some s.socket.channel ≡ false → Read s bufs (s, not_connected, [])
  connecting : is_some s.socket.connect_handler ≡ true → Read s bufs (s, would_block, [])
  waits : s.socket.incoming_queue ≡ [] → Read s bufs (s, would_block, [])
  -- the connection ended
  ended :
      (s' : State) (ec : ErrorCode)
      → stream s.socket.incoming_queue ≡ []
      → first_error s.socket.incoming_queue ≡ some ec
      → s'.socket.channel ≡ none
      → Read s bufs (s', ec, [])
  got :
      (s' : State) (bytes : List ℕ)
      → bytes ++ stream s'.socket.incoming_queue ≡ stream s.socket.incoming_queue
      → length bytes ≤ sum bufs
      → (stream s'.socket.incoming_queue ≡ []) ⊎ (length bytes ≡ sum bufs)
      → Read s bufs (s', no_error, bytes)
