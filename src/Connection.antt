-- ===== src/Connection.antt =====
-- src/modules/connections: the connection record and the check of an inbound message.
pub mod Record
pub mod Inbound
pub mod Exchange
pub mod Service
