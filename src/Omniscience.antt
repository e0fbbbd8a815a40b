-- ===== src/Omniscience.antt =====
-- omniscience: the register of Operating Space registrations.
pub mod Record
pub mod Observation
pub mod Completeness
pub mod Checkpoints
