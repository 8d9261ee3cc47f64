-- ===== src/Proof/Protocol.antt =====
-- modules/proofs/protocol: V2ProofProtocol.ts and BaseProofProtocol.ts.
pub mod Base
pub mod Formats
pub mod Proposal
pub mod Request
pub mod Presentation
pub mod Effect
pub mod Quiet
pub mod Transitions
pub mod AutoAccept
pub mod Delete
pub mod Run
