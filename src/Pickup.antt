-- ===== src/Pickup.antt =====
-- The pickup of the messages that a mediator queues: storage/MessageRepository.ts,
-- storage/InMemoryMessageRepository.ts and modules/message-pickup.
pub mod Slices
pub mod Queue
pub mod Messages
pub mod Mediator
pub mod Recipient
pub mod Rounds
pub mod Batches
