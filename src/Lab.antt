-- ===== src/Lab.antt =====
-- eventlog-lab: replicas that merge append-only event logs.
pub mod Clock
pub mod Event
pub mod Vector
pub mod Item
pub mod Log
pub mod Projector
pub mod Node
pub mod Sync
mod Samples
