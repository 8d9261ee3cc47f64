-- ===== src/Proof/Coordinator.antt =====
-- modules/proofs/protocol/v2/ProofFormatCoordinator.ts.
pub mod Build
pub mod Create
pub mod Accept
pub mod Process
