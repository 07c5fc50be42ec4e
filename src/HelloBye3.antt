-- ===== src/HelloBye3.antt =====
-- src/helloBye3.cpp, include/helloBye3.hpp: a protocol of four messages in which server and client
-- exchange cookies.
pub mod Server
pub mod ServerRules
pub mod Client
pub mod ClientRules
pub mod Setup
pub mod Calls
pub mod States
pub mod Greeting
pub mod Session
pub mod Tests
mod SessionTests
