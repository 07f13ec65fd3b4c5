-- ===== src/Drivers/Abstract.antt =====
-- drivers/abstract/: what every driver does around its own queries.
pub mod Backfill
pub mod Discovery
pub mod Cdc
pub mod Clear
pub mod Incremental
pub mod Prerequisites
