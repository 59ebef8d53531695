-- ===== src/Core/Simulator.antt =====
-- core/src/simulator.cpp: `Simulator`, the world's step under the agents' actions.
pub mod State
pub mod Counters
pub mod Commits
pub mod Failures
pub mod Holds
pub mod Motion
pub mod Duties
pub mod Agreement
pub mod Events
pub mod Tape
pub mod Views
pub mod Canon
pub mod Digest
pub mod Summary
pub mod Observe
pub mod Step
pub mod Start
pub mod Safe
