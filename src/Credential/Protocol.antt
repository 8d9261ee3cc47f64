-- ===== src/Credential/Protocol.antt =====
-- modules/credentials/protocol: BaseCredentialProtocol.ts and v2/V2CredentialProtocol.ts.
pub mod Base
pub mod Formats
pub mod Proposal
pub mod Offer
pub mod Request
pub mod Issue
pub mod Delete
pub mod Effect
pub mod Quiet
pub mod Transitions
pub mod AutoAccept
pub mod Run
