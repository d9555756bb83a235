-- ===== src/Tcp/Window/Tests.antt =====
-- Instances of the theorems about the window: a socket writes, and its packet is dropped.
use libsimulator.Base.{◌≡◌, refl, true, List, [], ◌∷◌, some, arith}
use libsimulator.Net.Hops.{remote_idx}
use libsimulator.Net.Address.{endpoint_eq}
use libsimulator.Tcp.{put, look_up, send_on}
use libsimulator.Tcp.Write.{send_chunks, send_buffers, write_some_on, write_some_impl}
use libsimulator.Tcp.Connect.{Host}
use libsimulator.Tcp.Api.{Call, apply, apply_all, with_state}
use libsimulator.Tcp.Connect.Tests.{config, ends, drops, client_at, made, socket, host}
use libsimulator.Tcp.Window.{InWindow, outstanding}
use libsimulator.Tcp.Window.Steps.{apply_all-InWindow}

-- A connected socket.
abbrev sender : Host
sender = host (record (socket 1 true client_at (some 5)) { channel = some 0 }) 1 (λ c. made)

sender-InWindow : InWindow sender.state.socket
unfolding outstanding
sender-InWindow = record { mss_pos = omega arith; mss_fits = omega arith; counted = omega arith }

abbrev calls : List Call
calls = Call.writes ((1 ∷ 2 ∷ 3 ∷ []) ∷ []) ∷ []

unfoldable after : Host
after = with_state sender (write_some_impl drops sender.state ((1 ∷ 2 ∷ 3 ∷ []) ∷ [])).0

runs : apply_all drops config ends calls sender ≡ some after
unfolding apply_all apply after
runs = refl

apply_all-InWindow_example : InWindow after.state.socket
apply_all-InWindow_example =
    apply_all-InWindow drops config ends calls sender after runs sender-InWindow

kept : look_up 0 after.state.socket.outstanding_packet_sizes ≡ some 3
unfolding after write_some_impl write_some_on send_buffers send_chunks send_on put look_up
    remote_idx endpoint_eq
kept = refl
