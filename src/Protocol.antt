-- ===== src/Protocol.antt =====
-- proto/: the messages that the components exchange, and the frames that carry them.
pub mod Messages
pub mod Actions
pub mod Observations
pub mod Framing
