-- ===== src/HelloBye2.antt =====
-- src/helloBye2Proto.cpp, include/helloBye2Proto.hpp, src/helloBye2_C.cpp: the protocol of HelloBye3
-- with a class for each state, whose objects are converted when the state changes.
pub mod Objects
pub mod Server
pub mod Client
pub mod ServerRules
pub mod Setup
mod Tests
