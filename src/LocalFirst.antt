-- ===== src/LocalFirst.antt =====
-- localfirst-go: nodes that each own their keys and replicate their records to a central store.
pub mod Clock
pub mod Store
pub mod Balances
pub mod Inventory
pub mod Sync
