-- ===== src/Destination/Parquet.antt =====
-- destination/parquet/: the Parquet writer on S3.
pub mod ObjectStore
pub mod Keys
pub mod Metadata
pub mod TwoPhase
