-- ===== src/HelloBye3MemPool.antt =====
-- src/helloBye3MemPool.cpp, include/helloBye3MemPool.hpp: HelloBye3 with its objects in a memory
-- pool of DPDK, in place of `new` and `delete`.
pub mod Server
pub mod Client
pub mod Setup
pub mod Pools
mod Tests
