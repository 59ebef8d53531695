-- ===== src/Planning.antt =====
-- planning/src/planner.cpp and planning/include/sentinel/planning/planner.hpp: the planner.
pub mod Reservation
pub mod Geometry
pub mod Energy
pub mod Claims
pub mod Bundle
