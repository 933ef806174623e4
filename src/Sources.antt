-- ===== src/Sources.antt =====
-- internal/sources and internal/storage/source_keys.go: the synchronisation of a source's feed with
-- its stored keys.
pub mod Items
pub mod Names
pub mod Rows
pub mod Statements
pub mod Categories
pub mod State
pub mod Repair
pub mod Index
pub mod Reconcile
pub mod Sync
pub mod Hwid
pub mod Leases
