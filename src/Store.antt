-- ===== src/Store.antt =====
-- src/mem_store.rs: the maps it keeps, the store and its transactions.
pub mod Predicate
mod Samples
pub mod Aggregate
pub mod Maps
pub mod Memory
pub mod Tables
mod Examples
