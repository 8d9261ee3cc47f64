-- ===== src/Proof.antt =====
-- modules/proofs: the present-proof protocol, version 2.
pub mod Record
pub mod Format
pub mod Coordinator
pub mod Protocol
