-- ===== src/Core/Network.antt =====
-- core/src/network.cpp: `NetworkEmulator`, one queue and byte budget for each directed link.
pub mod State
pub mod Links
pub mod Transmit
pub mod Step
pub mod Budget
pub mod Counts
pub mod Balance
pub mod Partition
pub mod Digest
