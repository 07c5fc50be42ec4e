-- ===== src/Hello.antt =====
-- What the HelloBye protocols share: the memory of their objects, and the packets they exchange.
pub mod Heap
pub mod Packet
pub mod Turn
pub mod Answer
pub mod Effects
pub mod Convert
pub mod Moves
pub mod Leaves
pub mod Rules
pub mod First
pub mod Api
pub mod Sample
