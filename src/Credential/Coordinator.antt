-- ===== src/Credential/Coordinator.antt =====
-- modules/credentials/protocol/v2/CredentialFormatCoordinator.ts: the loops over the format
-- services that build, and take in, the messages of the protocol. Each method stores its message
-- beside the exchange record and returns the fields that the format services wrote.
pub mod Attachments
pub mod Build
pub mod Create
pub mod Accept
pub mod Process
