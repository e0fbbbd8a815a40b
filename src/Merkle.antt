-- ===== src/Merkle.antt =====
-- merkle/merkle_root.py: every hash that the project records, and the inclusion proofs.
pub mod Hex
pub mod Json
pub mod Root
pub mod Tree
pub mod Proof
