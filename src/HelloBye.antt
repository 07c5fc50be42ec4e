-- ===== src/HelloBye.antt =====
-- HelloBye, the protocol that speaks in text: src/helloByeProto.cpp, include/helloByeProto.hpp and
-- src/helloBye_C.cpp.
pub mod Text
pub mod Objects
pub mod Server
pub mod Client
pub mod Setup
pub mod Spoken
pub mod ServerRules
pub mod ClientRules
pub mod Session
pub mod Exchange
pub mod Greeting
mod Tests
mod ExchangeTests
mod GreetingTests
