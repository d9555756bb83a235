-- ===== src/Net.antt =====
-- What travels and by which way: packet.hpp, the class `route` and the channel of simulator.hpp and
-- simulator.cpp, sink_forwarder.cpp and nat.cpp. Addresses and endpoints are values of Boost.Asio:
-- a number for each family, and a pair. A sink and a channel are named by numbers.
pub mod Address
pub mod Packet
pub mod Hops
mod Tests
