-- ===== src/Lib.antt =====
-- libsimulator simulates a network of nodes, each with its own asio-like io_context, on one virtual
-- clock. This library models its parts and states what makes them correct.
--
-- The parts and how they interact:
-- - `simulation` (src/simulation.cpp) owns the clock, the queue of pending timers, the tables of bound
--   sockets and the main loop. The loop polls the posted handlers, moves the clock to the first timer
--   and fires what is due.
-- - A packet carries its route, a list of sinks; `forward_packet` (src/simulator.cpp) hands it to the
--   next one. The sinks on the way are the queues (src/queue.cpp), which wait on timers, and the
--   address translators (src/nat.cpp); the last one is a socket behind a sink_forwarder.
-- - A TCP socket (src/tcp_socket.cpp) cuts what is written into packets, keeps a congestion window, and
--   puts the packets that arrive in order again. The HTTP server (src/http_server.cpp) and the SOCKS
--   proxy (src/socks_server.cpp) are programs on such sockets.
-- - Sockets take their endpoints from the tables of the simulation.
--
-- Which file models which part:
-- - Timers.antt: include/simulator/simulator.hpp (high_resolution_timer), src/high_resolution_timer.cpp,
--   src/high_resolution_clock.cpp, and add_timer and remove_timer of src/simulation.cpp. `World` is the
--   state; `cancel`, `expires_at`, `expires_after`, `async_wait` and `fire` are the member functions,
--   and `advance` is the part of an iteration of `simulation::run` behind `poll`.
-- - Timers/Loop.antt: `simulation::run` with its check for a stalled clock, and its handler of
--   exceptions. `run` takes fuel for its iterations; a theorem says how much is enough.
-- - Net/Packet.antt, Net/Hops.antt, Net/Address.antt: include/simulator/packet.hpp, the class `route`,
--   forward_packet, the ends of a channel (src/simulator.cpp), src/nat.cpp and src/sink_forwarder.cpp.
-- - Ports.antt: bind_socket, unbind_socket, rebind_socket and their UDP twins of src/simulation.cpp;
--   Ports/Node.antt: the choice of the local address in src/io_service.cpp.
--   The search for a free port takes 65531 rounds of fuel, one for each port up to 65530.
-- - Queue.antt: src/queue.cpp. Queue/Link.antt puts a queue into a simulation: a step relation of
--   packets that arrive at any time and of the handlers that the queue waits for.
-- - Tcp.antt, Tcp/Write.antt, Tcp/Input.antt, Tcp/Order.antt, Tcp/Cancel.antt, Tcp/Connect.antt:
--   src/tcp_socket.cpp. `State` is the socket, the channels and the log of what was sent and posted.
--   A buffer is cut in rounds of one byte at least, so its size is fuel enough; each round over the
--   reorder buffer takes a packet out of it.
-- - Http.antt, Http/Request.antt, Http/Server.antt, Http/Content.antt: src/http_server.cpp, its text functions, the parser of
--   requests, and the handlers of reads and writes. Text is a list of character codes. The headers are
--   read with the length of the request as fuel: each one is two characters long at least.
-- - Proxy.antt, Proxy/Url.antt: src/http_proxy.cpp, the handlers of its two connections and the URL of a
--   request. The loop over the requests in a buffer takes the length of the buffer as fuel.
-- - Function.antt: include/simulator/function.hpp with mallocator.hpp and handler_allocator.hpp beside it:
--   the owning pointers to handlers, over a heap. A number stands for a handler, and the destructor of a
--   handler touches no function.
-- - Resolver.antt: src/resolver.cpp, the queue of look-ups. DefaultConfig.antt: src/default_config.cpp.
-- - SocketBase.antt, Network.antt: socket_base and the interface `configuration` of
--   include/simulator/simulator.hpp, internal_connect, find_udp_socket and the nodes of
--   src/simulation.cpp, and the routes of src/io_service.cpp.
--   `Config` is what a simulation relies on; DefaultConfig.antt fills it in.
-- - Graph.antt, Graph/Label.antt: dump_network_graph of src/simulator.cpp, as the sets that it collects and
--   the text that it writes, and the labels of sinks (src/queue.cpp, src/nat.cpp, src/sink_forwarder.cpp).
-- - Servers.antt: the constructors, on_accept of the SOCKS server and `stop` of src/http_server.cpp, src/http_proxy.cpp and
--   src/socks_server.cpp, as far as their listening socket goes, with `close()` of src/acceptor.cpp.
-- - Socks.antt, Socks/Relay.antt, Socks/Session.antt: src/socks_server.cpp, the handshake, requests,
--   replies, connections and the UDP relay.
-- - Udp.antt, Udp/Control.antt: src/udp_socket.cpp, the incoming queue with its size, sending, and the
--   waits. Pcap.antt: src/pcap.cpp,
--   the bytes of the packet log. Acceptor.antt: src/acceptor.cpp, the queue of connections and the
--   handlers that wait for them.
-- - Base.antt and its children: lists, Boolean tests and error codes. Each component has its lemmas in
--   child modules named for what they prove and its tests and instances in Tests.
--
-- Conventions: a time point is a natural number of nanoseconds since the epoch of the simulation, so that
-- none before it is modelled; a
-- shared pointer or a bound handler is the number that names it; what is undefined in the source
-- returns none. Floating-point computations and the handlers of the user are parameters.
--
-- Not modelled: the opening and closing of files, console output, TLS, and the parts of asio that the
-- library only passes through.
pub mod Base
pub mod Timers
pub mod Net
pub mod Ports
pub mod SocketBase
pub mod Network
pub mod Queue
pub mod Tcp
pub mod Function
pub mod Http
pub mod Proxy
pub mod Resolver
pub mod DefaultConfig
pub mod Servers
pub mod Graph
pub mod Socks
pub mod Udp
pub mod Pcap
pub mod Acceptor
