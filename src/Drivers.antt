-- ===== src/Drivers.antt =====
-- drivers/: the sources that OLake reads.
pub mod Mysql
pub mod Abstract
