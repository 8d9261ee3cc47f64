-- ===== src/Credential.antt =====
-- src/modules/credentials: the issue credential protocol, version 2.
pub mod Record
pub mod Preview
pub mod Format
pub mod Coordinator
pub mod Protocol
