-- ===== src/Headers.antt =====
-- include/headers.hpp: the packet headers, as views on the bytes of a packet.
pub mod Bytes
pub mod Ethernet
pub mod Ipv4
pub mod Tcp
pub mod Udp
pub mod RoundTrips
mod Tests
