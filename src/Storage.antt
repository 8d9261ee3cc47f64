-- ===== src/Storage.antt =====
-- src/storage: the storage interface (StorageService.ts), the repositories over it
-- (Repository.ts) and the repository of the agent messages (didcomm/).
pub mod Service
pub mod Repository
pub mod DidComm
pub mod Migration
