-- ===== src/Typeutils.antt =====
-- utils/typeutils/: what is done with values of the source.
pub mod Compare
pub mod Fields
pub mod Filter
