-- ===== src/Types.antt =====
-- types/: the data model that the drivers and the destinations share.
pub mod Set
pub mod DataType
pub mod Property
pub mod UpdateType
pub mod TypeSchema
pub mod Stream
pub mod Configured
pub mod State
pub mod Catalog
