-- ===== src/Destination.antt =====
-- destination/: the writers of the lake.
pub mod Parquet
pub mod Writers
