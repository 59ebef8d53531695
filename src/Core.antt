-- ===== src/Core.antt =====
-- core/: the simulator's own state and the services that it is built from.
pub mod Hash
pub mod Rng
pub mod Network
pub mod Scenario
pub mod Simulator
