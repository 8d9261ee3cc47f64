-- ===== src/Tests.antt =====
-- Concrete inputs: a storage in memory, an agent over it, and the theorems at these inputs.
pub mod Memory
mod Agent
mod Previews
mod Prover
mod Pickup
mod Mediation
mod Connections
mod Versions
