-- ===== src/Mediation.antt =====
-- modules/routing: the mediation between a recipient and its mediator.
pub mod Record
pub mod Keylist
pub mod Base
pub mod Mediator
pub mod Recipient
pub mod Transitions
