-- ===== src/Dtls.antt =====
-- The DTLS server and client, over OpenSSL: src/dtlsServer.cpp, include/dtlsServer.hpp,
-- src/dtlsClient.cpp, include/dtlsClient.hpp.
pub mod Library
pub mod Store
pub mod Server
pub mod Client
pub mod Sending
pub mod Returns
pub mod Steps
pub mod Handshake
pub mod Packets
pub mod Carried
pub mod Context
pub mod Create
pub mod Setup
pub mod ClientPackets
pub mod Freed
mod Tests
pub mod ClientStays
