-- ===== src/Machine.antt =====
-- include/stateMachine.hpp: the state machine framework, for any identifier and packet class.
pub mod Table
pub mod Types
pub mod Iface
pub mod Find
pub mod Run
pub mod Timeouts
pub mod Uses
pub mod Lookup
pub mod Moves
pub mod Step
pub mod Finish
pub mod Packet
pub mod Outcome
pub mod Batch
pub mod Batches
pub mod Cancel
pub mod Returns
pub mod Handover
pub mod Registry
pub mod Queue
pub mod Deadline
pub mod Sample
mod Tests
mod SearchTests
mod TimerTests
