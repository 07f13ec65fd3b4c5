-- ===== src/Pkg.antt =====
-- pkg/: what several drivers share.
pub mod Jdbc
