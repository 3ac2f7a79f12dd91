-- ===== src/Warehouse.antt =====
-- warehouse-node/internal: a warehouse that works offline, and the central server that arbitrates.
pub mod World
pub mod Hlc
pub mod Event
pub mod Command
pub mod State
pub mod Central
pub mod Arbiter
pub mod Samples
