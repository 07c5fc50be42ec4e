-- ===== src/Tcp.antt =====
-- include/tcp.hpp, src/tcp.cpp, src/tcpJoke.cpp: a TCP server over the framework, and the congestion control and
-- the protocol that it is built with (include/tcpConCtlSimple.hpp, include/tcpProtoJoke.hpp).
pub mod Data
pub mod ConCtl
pub mod Segments
pub mod Window
pub mod Packet
pub mod Handlers
pub mod Queues
pub mod Loop
pub mod Joke
mod Tests
