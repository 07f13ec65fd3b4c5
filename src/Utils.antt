-- ===== src/Utils.antt =====
-- utils/: helpers that every package calls.
pub mod Arrays
pub mod Reformat
pub mod Text
pub mod Path
pub mod Retry
